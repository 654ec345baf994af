-- ===== src/Attestation/Verifier.antt =====
-- contracts/stylus/attestation-verifier/src/lib.rs: the verification of an attestation. The end of the window and the
-- tolerance are added as u64 numbers, which wrap around in a release build.
pub mod Sound
use synddb.Prelude.{
  ◌>>=◌, ◌>>◌, ℕ, ◌+◌, ◌%◌, ◌&&◌, not, Bool, true, false, Option, none, some, ◌++◌, leb, ◌==◌,
  Result, ok, u64_mod,
}
use synddb.Shared.Bytes.{Bytes, ascii, bytes_eq}
use synddb.Attestation.Json.{json_get_string, json_get_u64, json_get_bool}
use synddb.Attestation.Jwt.{ParsedJwt, parse_jwt}
use synddb.Attestation.State.{
  PublicValuesStruct, StylusProofData, VerifierError, untrusted_jwk, jwk_key_material_mismatch,
  untrusted_image_digest, untrusted_image_signer, validity_window_not_started,
  validity_window_expired, invalid_jwt, unsupported_algorithm, invalid_issuer, claims_mismatch,
  secure_boot_required, debug_mode_not_allowed, image_signature_invalid, invalid_proof_data,
  invalid_public_values, StylusAttestationVerifier, Vm, require, ok_or, or_invalid_jwt,
}
use synddb.Attestation.Precompiles.{verify_rs256, ecrecover_call}

module _ (vm : Vm) (self : StylusAttestationVerifier) where
  open vm use {block_timestamp, native_keccak256, decode_values, decode_proof}

  -- The algorithm, the key and the signature; the hash of the key's name is used again below.
  unfoldable pub signed_by_trusted_jwk : StylusProofData → ParsedJwt → Result ℕ VerifierError
  unfolding json_get_string verify_rs256 bytes_eq
  signed_by_trusted_jwk proof jwt = do
    alg ← ok_or (json_get_string jwt.header_json (ascii "alg")) invalid_jwt
    require (bytes_eq alg (ascii "RS256")) unsupported_algorithm
    kid ← ok_or (json_get_string jwt.header_json (ascii "kid")) invalid_jwt
    let kid_hash = native_keccak256 kid
    require (self.trusted_jwk_hashes kid_hash) (untrusted_jwk kid_hash)
    let actual_key_hash = native_keccak256 (proof.jwk_modulus ++ proof.jwk_exponent)
    require (self.jwk_key_material_hashes kid_hash == actual_key_hash)
        (jwk_key_material_mismatch kid_hash)
    verify_rs256 vm jwt.signing_input jwt.signature proof.jwk_modulus proof.jwk_exponent
    ok kid_hash

  -- Issuer, validity window and audience.
  unfoldable pub window_and_audience : PublicValuesStruct → Bytes → Result (Unit {0}) VerifierError
  unfolding json_get_string json_get_u64 bytes_eq
  window_and_audience values payload = do
    iss ← ok_or (json_get_string payload (ascii "iss")) invalid_jwt
    require (bytes_eq iss (ascii "https://confidentialcomputing.googleapis.com")) invalid_issuer
    iat ← ok_or (json_get_u64 payload (ascii "iat")) invalid_jwt
    exp ← ok_or (json_get_u64 payload (ascii "exp")) invalid_jwt
    require (iat == values.validity_window_start && exp == values.validity_window_end)
        claims_mismatch
    require (leb values.validity_window_start block_timestamp)
        (validity_window_not_started values.validity_window_start block_timestamp)
    require
        (leb block_timestamp ((values.validity_window_end + self.expiration_tolerance) % u64_mod))
        (validity_window_expired values.validity_window_end block_timestamp)
    aud ← ok_or (json_get_string payload (ascii "aud")) invalid_jwt
    require (native_keccak256 aud == values.audience_hash) claims_mismatch

  abbrev pub same_bool : Bool → Bool → Bool
  same_bool true b = b
  same_bool false b = not b

  abbrev pub is_disabled : Option Bytes → Bool
  is_disabled none = false
  is_disabled (some d) = bytes_eq d (ascii "disabled-since-boot")

  -- Secure boot, debug status and image.
  unfoldable pub boot_and_image : PublicValuesStruct → Bytes → Result (Unit {0}) VerifierError
  unfolding json_get_string json_get_bool bytes_eq
  boot_and_image values payload = do
    secboot ← ok_or (json_get_bool payload (ascii "secboot")) invalid_jwt
    require (same_bool secboot values.secboot) claims_mismatch
    require values.secboot secure_boot_required
    let dbgstat_disabled = is_disabled (json_get_string payload (ascii "dbgstat"))
    require (same_bool dbgstat_disabled values.dbgstat_disabled) claims_mismatch
    require values.dbgstat_disabled debug_mode_not_allowed
    image_digest ← ok_or (json_get_string payload (ascii "image_digest")) invalid_jwt
    require (native_keccak256 image_digest == values.image_digest_hash) claims_mismatch
    require (self.allowed_image_digest_hashes values.image_digest_hash)
        (untrusted_image_digest values.image_digest_hash)

  unfoldable pub image_signed : PublicValuesStruct → Result (Unit {0}) VerifierError
  unfolding ecrecover_call
  image_signed values = do
    image_signer ←
        ecrecover_call vm values.image_digest_hash values.image_signature_v values.image_signature_r
          values.image_signature_s
    require (not (image_signer == 0)) image_signature_invalid
    require (self.trusted_image_signers image_signer) (untrusted_image_signer image_signer)

  unfoldable pub verify_decoded : PublicValuesStruct → StylusProofData → Result ℕ VerifierError
  unfolding parse_jwt signed_by_trusted_jwk window_and_audience boot_and_image image_signed
  verify_decoded values proof = do
    jwt ← or_invalid_jwt (parse_jwt proof.jwt)
    kid_hash ← signed_by_trusted_jwk proof jwt
    window_and_audience values jwt.payload_json
    boot_and_image values jwt.payload_json
    require (kid_hash == values.jwk_key_hash) claims_mismatch
    image_signed values
    ok values.tee_signing_key

  unfoldable pub verify_attestation_proof : Bytes → Bytes → Result ℕ VerifierError
  unfolding verify_decoded
  verify_attestation_proof public_values proof_bytes = do
    values ← ok_or (decode_values public_values) invalid_public_values
    proof ← ok_or (decode_proof proof_bytes) invalid_proof_data
    verify_decoded values proof
