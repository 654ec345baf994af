-- ===== src/Attestation/Verifier/Sound.antt =====
-- What an attestation that is accepted shows.
use synddb.Prelude.{
  ℕ, ◌+◌, ◌%◌, ◌≤◌, ◌≡◌, ◌≢◌, ◌↔◌, refl, sym, ap, ◌∙◌, ◌&&◌, not, Bool, true, false, Option, none,
  some, ◌++◌, leb, ◌==◌, Result, ok, ◌>>=◌, ◌>>◌, bind-ok, arith, u64_mod, ==_iff, leb→le, le→leb,
}
use synddb.Shared.Bytes.{Bytes, ascii, bytes_eq→eq, bytes_eq_refl}
use synddb.Attestation.Pkcs1.Laws.{padded_hash, verify_pkcs1v15_sha256_iff}
use synddb.Attestation.Json.{json_get_string, json_get_u64, json_get_bool}
use synddb.Attestation.Jwt.{ParsedJwt, parse_jwt}
use synddb.Attestation.State.{
  PublicValuesStruct, StylusProofData, VerifierError, StylusAttestationVerifier, Vm, require, ok_or,
  or_invalid_jwt, unsupported_algorithm, invalid_issuer, claims_mismatch, untrusted_image_digest,
  untrusted_image_signer, invalid_jwt, validity_window_not_started, validity_window_expired,
  image_signature_invalid,
}
use synddb.Attestation.Precompiles.Answers.{
  Recovers, Hashes, Raises, ecrecover_call_iff, sha256_call_iff, modexp_call_iff,
}
use synddb.Attestation.Precompiles.{ecrecover_call, sha256_call, modexp_call, verify_rs256}
use synddb.Attestation.Verifier.{
  signed_by_trusted_jwk, window_and_audience, same_bool, is_disabled, boot_and_image, image_signed,
  verify_decoded, verify_attestation_proof,
}

require_ok :
    (b : Bool) (e : VerifierError) {A : Type 0} (k : Result A VerifierError) (a : A)
    → (require b e >> k) ≡ ok a
    → (b ≡ true) × (k ≡ ok a)
require_ok true e k a h = (refl, h)
require_ok false e k a h = cc

require_last : (b : Bool) (e : VerifierError) → require b e ≡ ok tt → b ≡ true
require_last true e h = refl
require_last false e h = cc

ok_or_ok :
    {A B : Type 0} (o : Option A) (e : VerifierError) (f : A → Result B VerifierError) (b : B)
    → (ok_or o e >>= f) ≡ ok b
    → (a : A) × (o ≡ some a) × (f a ≡ ok b)
ok_or_ok (some a) e f b h = (a, refl, h)
ok_or_ok none e f b h = cc

ok_eq : (a b : ℕ) → ◌≡◌ {A = Result ℕ VerifierError} (ok a) (ok b) → a ≡ b
ok_eq a b h = cc

and_true : (a b : Bool) → (a && b) ≡ true → (a ≡ true) × (b ≡ true)
and_true true b h = (refl, h)
and_true false b h = cc

nonzero : (n : ℕ) → not (n == 0) ≡ true → n ≢ 0
nonzero n h e = ground arith

nonzero_test : (n : ℕ) → n ≢ 0 → not (n == 0) ≡ true
nonzero_test n h = ground arith

step_some :
    {A B : Type 0} (o : Option A) (e : VerifierError) (f : A → Result B VerifierError) (a : A)
    → o ≡ some a
    → (ok_or o e >>= f) ≡ f a
step_some o e f a h = rw h

step_true :
    {B : Type 0} (b : Bool) (e : VerifierError) (k : Result B VerifierError)
    → b ≡ true
    → (require b e >> k) ≡ k
step_true b e k h = rw h

step_ok :
    {A B : Type 0} (r : Result A VerifierError) (f : A → Result B VerifierError) (a : A)
    → r ≡ ok a
    → (r >>= f) ≡ f a
step_ok r f a h = rw h

module _ (vm : Vm) where
  -- The signature is an RSA signature of the key over the SHA-256 hash of the text.
  abbrev pub RsaSigned : Bytes → Bytes → Bytes → Bytes → Type 0
  RsaSigned text signature modulus exponent =
      (hash : Bytes) × (n : ℕ) × Hashes vm text hash
      × (8 ≤ n)
      × Raises vm signature exponent modulus (padded_hash n hash)

  rs256_iff :
      (text signature modulus exponent : Bytes)
      → (verify_rs256 vm text signature modulus exponent ≡ ok tt)
        ↔ RsaSigned text signature modulus exponent
  unfolding verify_rs256
  rs256_iff text signature modulus exponent = (
    λ h.
        let (hash, eh, h') = bind-ok (sha256_call vm text) _ tt h in
        let (plain, ep, h'') = bind-ok (modexp_call vm signature exponent modulus) _ tt h' in
        let good = require_last _ _ h'' in
        let hashed = (sha256_call_iff vm text hash).0 eh in
        let (n, hn, same) = (verify_pkcs1v15_sha256_iff plain hash hashed.1).0 good in
        (
          hash,
          n,
          hashed,
          hn,
          (modexp_call_iff vm signature exponent modulus _).0 (ep ∙ ap (λ p. ok p) same),
        ),
    λ (hash, n, hashed, hn, raised).
        let eh = (sha256_call_iff vm text hash).1 hashed in
        let ep = (modexp_call_iff vm signature exponent modulus _).1 raised in
        let good =
          (verify_pkcs1v15_sha256_iff (padded_hash n hash) hash hashed.1).1 (n, hn, refl) in
        rw (eh, ep, good) refl,
  )

  module _ (self : StylusAttestationVerifier) where
    -- The token's header names RS256 and a trusted key, whose stored hash is that of the key
    -- material, and the key signed the token.
    abbrev pub TrustedKey : StylusProofData → ParsedJwt → ℕ → Type 0
    TrustedKey proof jwt kid_hash =
        (kid : Bytes) × (json_get_string jwt.header_json (ascii "alg") ≡ some (ascii "RS256"))
        × (json_get_string jwt.header_json (ascii "kid") ≡ some kid)
        × (vm.native_keccak256 kid ≡ kid_hash)
        × (self.trusted_jwk_hashes kid_hash ≡ true)
        × (self.jwk_key_material_hashes kid_hash
            ≡ vm.native_keccak256 (proof.jwk_modulus ++ proof.jwk_exponent))
        × RsaSigned jwt.signing_input jwt.signature proof.jwk_modulus proof.jwk_exponent

    signed_iff :
        (proof : StylusProofData) (jwt : ParsedJwt) (k : ℕ)
        → (signed_by_trusted_jwk vm self proof jwt ≡ ok k) ↔ TrustedKey proof jwt k
    unfolding signed_by_trusted_jwk
    signed_iff proof jwt k = (
      λ h.
          let (alg, ea, h1) = ok_or_ok (json_get_string jwt.header_json (ascii "alg")) _ _ k h in
          let (ra, h2) = require_ok _ _ _ k h1 in
          let (kid, ek, h3) = ok_or_ok (json_get_string jwt.header_json (ascii "kid")) _ _ k h2 in
          let (trusted, h4) = require_ok _ _ _ k h3 in
          let (material, h5) = require_ok _ _ _ k h4 in
          let (u, er, h6) =
            bind-ok
              (verify_rs256 vm jwt.signing_input jwt.signature proof.jwk_modulus proof.jwk_exponent)
              _ k h5 in
          let same : vm.native_keccak256 kid ≡ k = ground arith in
          (
            kid,
            ea ∙ ap (λ a. some a) (bytes_eq→eq alg _ ra),
            ek,
            same,
            ap self.trusted_jwk_hashes (sym same) ∙ trusted,
            ap self.jwk_key_material_hashes (sym same) ∙ ground arith,
            (rs256_iff _ _ _ _).0 er,
          ),
      λ (kid, ea, ek, same, trusted, material, rsa).
          let er =
            (rs256_iff jwt.signing_input jwt.signature proof.jwk_modulus proof.jwk_exponent).1
              rsa in
          let alg = bytes_eq_refl (ascii "RS256") in
          let eq : (self.jwk_key_material_hashes k
                == vm.native_keccak256 (proof.jwk_modulus ++ proof.jwk_exponent))
              ≡ true =
            ground arith in
          step_some _ _ _ _ ea
          ∙ step_true _ unsupported_algorithm _ alg
          ∙ step_some _ _ _ _ ek
          ∙ step_true _ _ _ (ap self.trusted_jwk_hashes same ∙ trusted)
          ∙ step_true _ _ _ (
              ap
                (λ x.
                  self.jwk_key_material_hashes x
                  == vm.native_keccak256 (proof.jwk_modulus ++ proof.jwk_exponent))
                same
              ∙ eq)
          ∙ step_ok _ _ _ er
          ∙ ap (λ x. ok x) same,
    )

    abbrev pub issuer : Bytes
    issuer = ascii "https://confidentialcomputing.googleapis.com"

    -- The token is Google's, is for the audience, and its window, which is the claimed one, is open
    -- but for the tolerance at its end.
    abbrev pub InWindow : PublicValuesStruct → Bytes → Type 0
    InWindow values payload =
        (aud : Bytes) × (json_get_string payload (ascii "iss") ≡ some issuer)
        × (json_get_u64 payload (ascii "iat") ≡ some values.validity_window_start)
        × (json_get_u64 payload (ascii "exp") ≡ some values.validity_window_end)
        × (values.validity_window_start ≤ vm.block_timestamp)
        × (vm.block_timestamp ≤ (values.validity_window_end + self.expiration_tolerance) % u64_mod)
        × (json_get_string payload (ascii "aud") ≡ some aud)
        × (vm.native_keccak256 aud ≡ values.audience_hash)

    window_iff :
        (values : PublicValuesStruct) (payload : Bytes)
        → (window_and_audience vm self values payload ≡ ok tt) ↔ InWindow values payload
    unfolding window_and_audience
    window_iff values payload = (
      λ h.
          let (iss, ei, h1) = ok_or_ok (json_get_string payload (ascii "iss")) _ _ tt h in
          let (ri, h2) = require_ok _ _ _ tt h1 in
          let (iat, et, h3) = ok_or_ok (json_get_u64 payload (ascii "iat")) _ _ tt h2 in
          let (exp, ee, h4) = ok_or_ok (json_get_u64 payload (ascii "exp")) _ _ tt h3 in
          let (same, h5) =
            require_ok (iat == values.validity_window_start && exp == values.validity_window_end)
              claims_mismatch _ tt h4 in
          let (started, h6) =
            require_ok (leb values.validity_window_start vm.block_timestamp)
              (validity_window_not_started values.validity_window_start vm.block_timestamp) _ tt
              h5 in
          let (open', h7) =
            require_ok
              (leb vm.block_timestamp
                ((values.validity_window_end + self.expiration_tolerance) % u64_mod))
              (validity_window_expired values.validity_window_end vm.block_timestamp) _ tt h6 in
          let (aud, ea, h8) =
            ok_or_ok (json_get_string payload (ascii "aud")) invalid_jwt
              (λ x. require (vm.native_keccak256 x == values.audience_hash) claims_mismatch) tt
              h7 in
          let hash = require_last (vm.native_keccak256 aud == values.audience_hash) _ h8 in
          let (both, both') = and_true (iat == values.validity_window_start) _ same in
          (
            aud,
            ei ∙ ap (λ a. some a) (bytes_eq→eq iss _ ri),
            et ∙ ap (λ a. some a) ((==_iff iat values.validity_window_start).0 both),
            ee ∙ ap (λ a. some a) ((==_iff exp values.validity_window_end).0 both'),
            leb→le _ _ started,
            leb→le _ _ open',
            ea,
            (==_iff (vm.native_keccak256 aud) values.audience_hash).0 hash,
          ),
      λ (aud, ei, et, ee, started, open', ea, hash).
          let same : (values.validity_window_start == values.validity_window_start
                && values.validity_window_end == values.validity_window_end)
              ≡ true =
            rw (
              (==_iff values.validity_window_start values.validity_window_start).1 refl,
              (==_iff values.validity_window_end values.validity_window_end).1 refl,
            ) in
          let hashed = (==_iff (vm.native_keccak256 aud) values.audience_hash).1 hash in
          step_some _ _ _ _ ei
          ∙ step_true _ invalid_issuer _ (bytes_eq_refl issuer)
          ∙ step_some _ _ _ _ et
          ∙ step_some _ _ _ _ ee
          ∙ step_true _ claims_mismatch _ same
          ∙ step_true (leb values.validity_window_start vm.block_timestamp)
              (validity_window_not_started values.validity_window_start vm.block_timestamp) _
              (le→leb _ _ started)
          ∙ step_true
              (leb vm.block_timestamp
                ((values.validity_window_end + self.expiration_tolerance) % u64_mod))
              (validity_window_expired values.validity_window_end vm.block_timestamp) _
              (le→leb _ _ open')
          ∙ step_some (json_get_string payload (ascii "aud")) invalid_jwt
              (λ x. require (vm.native_keccak256 x == values.audience_hash) claims_mismatch) aud ea
          ∙ ap (λ b. require b claims_mismatch) hashed,
    )

    -- Secure boot is on and debugging off, as claimed, and the image is the claimed one and allowed.
    abbrev pub BootsImage : PublicValuesStruct → Bytes → Type 0
    BootsImage values payload =
        (digest : Bytes) × (json_get_bool payload (ascii "secboot") ≡ some true)
        × (values.secboot ≡ true)
        × (json_get_string payload (ascii "dbgstat") ≡ some (ascii "disabled-since-boot"))
        × (values.dbgstat_disabled ≡ true)
        × (json_get_string payload (ascii "image_digest") ≡ some digest)
        × (vm.native_keccak256 digest ≡ values.image_digest_hash)
        × (self.allowed_image_digest_hashes values.image_digest_hash ≡ true)

    same_bool-true : (a b : Bool) → same_bool vm self a b ≡ true → b ≡ true → a ≡ true
    same_bool-true true b h e = refl
    same_bool-true false b h e = ground arith

    disabled_text :
        (o : Option Bytes) → is_disabled vm self o ≡ true → o ≡ some (ascii "disabled-since-boot")
    disabled_text none h = cc
    disabled_text (some d) h = ap (λ x. some x) (bytes_eq→eq d _ h)

    boot_iff :
        (values : PublicValuesStruct) (payload : Bytes)
        → (boot_and_image vm self values payload ≡ ok tt) ↔ BootsImage values payload
    unfolding boot_and_image
    boot_iff values payload = (
      λ h.
          let (secboot, es, h1) = ok_or_ok (json_get_bool payload (ascii "secboot")) _ _ tt h in
          let (same, h2) = require_ok _ _ _ tt h1 in
          let (on, h3) = require_ok _ _ _ tt h2 in
          let (same', h4) = require_ok _ _ _ tt h3 in
          let (off, h5) = require_ok _ _ _ tt h4 in
          let (digest, ed, h6) =
            ok_or_ok (json_get_string payload (ascii "image_digest")) _ _ tt h5 in
          let (hash, h7) =
            require_ok (vm.native_keccak256 digest == values.image_digest_hash) claims_mismatch _ tt
              h6 in
          let allowed = require_last _ _ h7 in
          (
            digest,
            es ∙ ap (λ b. some b) (same_bool-true secboot values.secboot same on),
            on,
            disabled_text _ (same_bool-true _ values.dbgstat_disabled same' off),
            off,
            ed,
            (==_iff (vm.native_keccak256 digest) values.image_digest_hash).0 hash,
            allowed,
          ),
      λ (digest, es, on, edbg, off, ed, hash, allowed).
          let hashed = (==_iff (vm.native_keccak256 digest) values.image_digest_hash).1 hash in
          let disabled : is_disabled vm self (json_get_string payload (ascii "dbgstat")) ≡ true =
            ap (is_disabled vm self) edbg ∙ bytes_eq_refl (ascii "disabled-since-boot") in
          let same' : same_bool vm self
                (is_disabled vm self (json_get_string payload (ascii "dbgstat")))
                values.dbgstat_disabled
              ≡ true =
            ap (λ b. same_bool vm self b values.dbgstat_disabled) disabled ∙ off in
          step_some _ _ _ _ es
          ∙ step_true _ _ _ on
          ∙ step_true _ _ _ on
          ∙ step_true _ _ _ same'
          ∙ step_true _ _ _ off
          ∙ step_some _ _ _ _ ed
          ∙ step_true _ _ _ hashed
          ∙ ap (λ b. require b (untrusted_image_digest values.image_digest_hash)) allowed,
    )

    -- The digest of the image is signed by a trusted signer.
    abbrev pub ImageSigned : PublicValuesStruct → Type 0
    ImageSigned values =
        (signer : ℕ) × Recovers vm values.image_digest_hash values.image_signature_v
          values.image_signature_r values.image_signature_s signer
        × (signer ≢ 0)
        × (self.trusted_image_signers signer ≡ true)

    image_iff :
        (values : PublicValuesStruct) → (image_signed vm self values ≡ ok tt) ↔ ImageSigned values
    unfolding image_signed
    image_iff values = (
      λ h.
          let (signer, es, h1) =
            bind-ok
              (ecrecover_call vm values.image_digest_hash values.image_signature_v
                values.image_signature_r values.image_signature_s)
              _ tt h in
          let (set, h2) = require_ok (not (signer == 0)) image_signature_invalid _ tt h1 in
          (
            signer,
            (ecrecover_call_iff vm _ _ _ _ signer).0 es,
            nonzero signer set,
            require_last _ _ h2,
          ),
      λ (signer, recovered, set, trusted).
          step_ok _ _ _ ((ecrecover_call_iff vm _ _ _ _ signer).1 recovered)
          ∙ step_true (not (signer == 0)) image_signature_invalid _ (nonzero_test signer set)
          ∙ ap (λ b. require b (untrusted_image_signer signer)) trusted,
    )

    -- What an accepted attestation shows.
    abbrev pub Attested : PublicValuesStruct → StylusProofData → Type 0
    Attested values proof =
        (jwt : ParsedJwt) × (or_invalid_jwt (parse_jwt proof.jwt) ≡ ok jwt)
        × TrustedKey proof jwt values.jwk_key_hash
        × InWindow values jwt.payload_json
        × BootsImage values jwt.payload_json
        × ImageSigned values

    verify_decoded_iff :
        (values : PublicValuesStruct) (proof : StylusProofData) (key : ℕ)
        → (verify_decoded vm self values proof ≡ ok key)
          ↔ (Attested values proof × (key ≡ values.tee_signing_key))
    unfolding verify_decoded
    verify_decoded_iff values proof key = (
      λ h.
          let (jwt, ej, h1) = bind-ok (or_invalid_jwt (parse_jwt proof.jwt)) _ key h in
          let (k, ek, h2) = bind-ok (signed_by_trusted_jwk vm self proof jwt) _ key h1 in
          let (u, ew, h3) =
            bind-ok (window_and_audience vm self values jwt.payload_json) _ key h2 in
          let (u', eb, h4) = bind-ok (boot_and_image vm self values jwt.payload_json) _ key h3 in
          let (same, h5) = require_ok (k == values.jwk_key_hash) claims_mismatch _ key h4 in
          let (u'', ei, h6) = bind-ok (image_signed vm self values) _ key h5 in
          let k' = (==_iff k values.jwk_key_hash).0 same in
          (
            (
              jwt,
              ej,
              (signed_iff proof jwt values.jwk_key_hash).0 (ek ∙ ap (λ x. ok x) k'),
              (window_iff values jwt.payload_json).0 ew,
              (boot_iff values jwt.payload_json).0 eb,
              (image_iff values).0 ei,
            ),
            ok_eq _ _ (sym h6),
          ),
      λ ((jwt, ej, signed', window, boot, image), same).
          let own = (==_iff values.jwk_key_hash values.jwk_key_hash).1 refl in
          step_ok _ _ _ ej
          ∙ step_ok _ _ _ ((signed_iff proof jwt values.jwk_key_hash).1 signed')
          ∙ step_ok _ _ _ ((window_iff values jwt.payload_json).1 window)
          ∙ step_ok _ _ _ ((boot_iff values jwt.payload_json).1 boot)
          ∙ step_true _ _ _ own
          ∙ step_ok _ _ _ ((image_iff values).1 image)
          ∙ ap (λ x. ok x) (sym same),
    )

    -- The verification accepts, with the claimed signing key, exactly if both arguments decode, the
    -- token parses, is signed with RS256 by the trusted key that is claimed, is Google's, is for the
    -- claimed audience and in its window, shows secure boot, no debugging and the claimed image, that
    -- image is allowed, and its digest is signed by a trusted signer.
    pub verify_attestation_proof_iff :
        (public_values proof_bytes : Bytes) (key : ℕ)
        → (verify_attestation_proof vm self public_values proof_bytes ≡ ok key) ↔ (
            (values : PublicValuesStruct) × (proof : StylusProofData) × (vm.decode_values
                public_values
              ≡ some values)
            × (vm.decode_proof proof_bytes ≡ some proof)
            × Attested values proof
            × (key ≡ values.tee_signing_key))
    unfolding verify_attestation_proof
    verify_attestation_proof_iff public_values proof_bytes key = (
      λ h.
          let (values, ev, h1) = ok_or_ok (vm.decode_values public_values) _ _ key h in
          let (proof, ep, h2) = ok_or_ok (vm.decode_proof proof_bytes) _ _ key h1 in
          let (attested, same) = (verify_decoded_iff values proof key).0 h2 in
          (values, proof, ev, ep, attested, same),
      λ (values, proof, ev, ep, attested, same).
          step_some _ _ _ _ ev
          ∙ step_some _ _ _ _ ep
          ∙ (verify_decoded_iff values proof key).1 (attested, same),
    )

    -- Nothing ties the signing key to the token: what is accepted with one key is accepted with any.
    verify_decoded-any_key :
        (values : PublicValuesStruct) (proof : StylusProofData) (key other : ℕ)
        → verify_decoded vm self values proof ≡ ok key
        → verify_decoded vm self (record values { tee_signing_key = other }) proof ≡ ok other
    verify_decoded-any_key values proof key other h =
        (verify_decoded_iff (record values { tee_signing_key = other }) proof other).1
          (((verify_decoded_iff values proof key).0 h).0, refl)
