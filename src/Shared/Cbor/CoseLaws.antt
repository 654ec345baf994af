-- ===== src/Shared/Cbor/CoseLaws.antt =====
-- Signed messages: what is built reads back, and what verifies was signed by the expected key.
use synddb.Prelude.{
  Option, none, ℕ, ◌%◌, ◌<◌, ◌≡◌, refl, ap, ◌∙◌, true, some, [], ◌∷◌, length, Result, ok, err,
  ◌>>=◌, ◌>>◌, arith, if◌then◌else◌, u64_mod, Result-cases, inl, inr,
}
use synddb.Shared.Bytes.{Bytes, bytes_eq, bytes_eq→eq, bytes_eq_refl}
use synddb.Shared.Cbor.Error.{
  CborError, CborMessageType, signature_verification, changeset, withdrawal, snapshot, as_u8,
  from_u8,
}
use synddb.Shared.Cbor.Crypto.{
  Crypto, verifying_key_from_bytes, signature_from_bytes, verify_secp256k1,
}
use synddb.Shared.Cbor.Cose.{
  pos, int, integer, CoseSign1, Header, Coset, ParsedCoseMessage, protected_header,
  unprotected_header, header_sequence, header_timestamp, header_msg_type, extract_pubkey_bytes,
  exactly_64, parse_fields, build_cose_sign1, parse_cose_sign1, extract_sequence, extract_pubkey,
  verify_and_parse_cose_sign1, es256k,
}

-- The codec reads back what it wrote, with the bytes of the protected header, and what was signed
-- before the header was written is what is checked after it is read.
pub record CosetLaws (coset : Coset) : Type 0 where
  pub round_trip :
      (c : CoseSign1) (raw : Bytes)
      → coset.to_vec c ≡ ok raw
      → (original : Bytes) × (coset.header_to_vec c.protected ≡ ok original)
        × (coset.from_slice raw ≡ ok (record c { original_data = some original }))
  pub original_header :
      (h : Header) (original : Bytes) (payload : Option Bytes)
      → coset.header_to_vec h ≡ ok original
      → coset.tbs_data (some original) h payload ≡ coset.tbs_data none h payload

abbrev pub signed : ℕ → ℕ → ℕ → Bytes → Bytes → Bytes → CoseSign1
signed sequence timestamp code payload pubkey signature = record {
  original_data = none;
  protected = record {
    alg = some es256k;
    rest =
        (int header_sequence, integer (pos sequence))
        ∷ (int header_timestamp, integer (pos timestamp))
        ∷ (int header_msg_type, integer (pos code))
        ∷ [];
  };
  unprotected = unprotected_header pubkey;
  payload = some payload;
  signature = signature;
}

abbrev pub parsed : ℕ → ℕ → CborMessageType → Bytes → Bytes → Bytes → ParsedCoseMessage
parsed sequence timestamp message_type payload pubkey signature = record {
  sequence = sequence;
  timestamp = timestamp;
  message_type = message_type;
  payload = payload;
  signature = signature;
  pubkey = pubkey;
}

from_code : (t : CborMessageType) (code : ℕ) → code % 256 ≡ as_u8 t → from_u8 (code % 256) ≡ ok t
unfolding from_u8 as_u8
from_code changeset code h = rw h refl
from_code withdrawal code h = rw h refl
from_code snapshot code h = rw h refl

-- The type is read from the lowest byte of its header: a message whose type header is any code
-- that ends in the byte of a type, such as 256, parses as that type.
pub parse_fields_low_byte :
    (sequence timestamp code : ℕ) (t : CborMessageType) (payload pubkey signature : Bytes)
    → sequence < u64_mod
    → timestamp < u64_mod
    → code < u64_mod
    → length pubkey ≡ 64
    → length signature ≡ 64
    → code % 256 ≡ as_u8 t
    → parse_fields (signed sequence timestamp code payload pubkey signature)
      ≡ ok (parsed sequence timestamp t payload pubkey signature)
unfolding parse_fields
parse_fields_low_byte sequence timestamp code t payload pubkey signature hs ht hc hp hg h =
    let es : sequence % u64_mod ≡ sequence = omega arith in
    let et : timestamp % u64_mod ≡ timestamp = omega arith in
    let ec : code % u64_mod ≡ code = omega arith in rw (ec, from_code t code h, hp, hg, es, et)

pub as_u8-low : (t : CborMessageType) → as_u8 t % 256 ≡ as_u8 t
unfolding as_u8
as_u8-low changeset = refl
as_u8-low withdrawal = refl
as_u8-low snapshot = refl

pub as_u8-lt : (t : CborMessageType) → as_u8 t < u64_mod
unfolding as_u8
as_u8-lt changeset = omega arith
as_u8-lt withdrawal = omega arith
as_u8-lt snapshot = omega arith

module _ (coset : Coset) (laws : CosetLaws coset) where
  -- What `build_cose_sign1` returns, if the signer and the codec do.
  build-eq-ok :
      (sequence timestamp : ℕ) (t : CborMessageType) (payload pubkey : Bytes)
      (sign_fn : Bytes → Result Bytes CborError) (raw : Bytes)
      → build_cose_sign1 coset sequence timestamp t payload pubkey sign_fn ≡ ok raw
      → (signature : Bytes) × (sign_fn
            (coset.tbs_data none (protected_header sequence timestamp t) (some payload))
          ≡ ok signature)
        × (original : Bytes) × (coset.header_to_vec (protected_header sequence timestamp t)
            ≡ ok original)
        × (coset.from_slice raw
            ≡ ok (record (signed sequence timestamp (as_u8 t) payload pubkey signature) {
              original_data = some original;
            }))
  unfolding build_cose_sign1
  build-eq-ok sequence timestamp t payload pubkey sign_fn raw h =
      elim (Result-cases
        (sign_fn (coset.tbs_data none (protected_header sequence timestamp t) (some payload)))) [
          | inl (signature, e) ↦
              let (original, written, read) =
                laws.round_trip _ raw (rw (e, build_cose_sign1) at h) in
              (signature, e, original, written, read)
          | inr (x, e) ↦ absurd (let bad = rw (e, build_cose_sign1) at h in cc)
        ]

  -- A message that is built for a 64-byte key with a 64-byte signature parses to the fields it was
  -- built from, with that signature.
  pub parse-build_cose_sign1 :
      (sequence timestamp : ℕ) (t : CborMessageType) (payload pubkey signature : Bytes)
      (sign_fn : Bytes → Result Bytes CborError) (raw : Bytes)
      → sequence < u64_mod
      → timestamp < u64_mod
      → length pubkey ≡ 64
      → length signature ≡ 64
      → sign_fn (coset.tbs_data none (protected_header sequence timestamp t) (some payload))
        ≡ ok signature
      → build_cose_sign1 coset sequence timestamp t payload pubkey sign_fn ≡ ok raw
      → (parse_cose_sign1 coset raw ≡ ok (parsed sequence timestamp t payload pubkey signature))
        × (extract_sequence coset raw ≡ ok sequence)
  unfolding parse_cose_sign1 extract_sequence
  parse-build_cose_sign1 sequence timestamp t payload pubkey signature sign_fn raw hs ht hp hg e h =
      let (signature', e', original, written, read) =
        build-eq-ok sequence timestamp t payload pubkey sign_fn raw h in
      let same : signature' ≡ signature = cc in
      let read' : coset.from_slice raw
          ≡ ok (record (signed sequence timestamp (as_u8 t) payload pubkey signature) {
            original_data = some original;
          }) =
        read
        ∙ ap
            (λ x. ok (record (signed sequence timestamp (as_u8 t) payload pubkey x) {
              original_data = some original;
            }))
            same in
      let es : sequence % u64_mod ≡ sequence = omega arith in
      (
        rw read' (
            parse_fields_low_byte sequence timestamp (as_u8 t) t payload pubkey signature hs ht
              (as_u8-lt t) hp hg (as_u8-low t)),
        rw read' (rw es),
      )

exactly_64-eq : (b x : Bytes) → exactly_64 b ≡ ok x → b ≡ x
exactly_64-eq b x h = ground arith

key_of :
    (pubkey : Bytes)
    → length pubkey ≡ 64
    → extract_pubkey_bytes (unprotected_header pubkey).rest ≡ ok pubkey
unfolding extract_pubkey_bytes
key_of pubkey h = rw h

parse_fields-parts :
    (c : CoseSign1) (p : ParsedCoseMessage)
    → parse_fields c ≡ ok p
    → (extract_pubkey_bytes c.unprotected.rest ≡ ok p.pubkey) × (c.signature ≡ p.signature)
unfolding parse_fields
parse_fields-parts c p h = (ground arith, ground arith)

module _ (coset : Coset) (crypto : Crypto) where
  abbrev checks : CoseSign1 → Bytes → Result ParsedCoseMessage CborError
  checks c expected = do
    pubkey ← extract_pubkey coset crypto c.unprotected.rest
    if bytes_eq pubkey expected
        then (do
          signature_bytes ← exactly_64 c.signature
          signature ← signature_from_bytes crypto signature_bytes
          verify_secp256k1 crypto (coset.tbs_data c.original_data c.protected c.payload) signature
              expected
          parse_fields c)
        else err signature_verification

  -- The rest of `verify_and_parse_cose_sign1` at the structure that was decoded.
  verified :
      (c : CoseSign1) (raw expected : Bytes) (p : ParsedCoseMessage)
      → checks c expected ≡ ok p
      → (parse_fields c ≡ ok p)
        × (p.pubkey ≡ expected)
        × (crypto.verify_prehash expected
              (crypto.keccak256 (coset.tbs_data c.original_data c.protected c.payload))
              p.signature
            ≡ true)
  unfolding extract_pubkey verifying_key_from_bytes signature_from_bytes verify_secp256k1
  verified c raw expected p h =
      let parts = parse_fields-parts c p in
      (ground arith, ground (arith, parts, bytes_eq→eq p.pubkey expected), ground (arith, parts))

  -- A message that verifies against a key decodes to a structure that names that key and carries
  -- the returned fields, and the returned signature is the key's over its `Sig_structure`.
  pub verify_and_parse_sound :
      (raw expected : Bytes) (p : ParsedCoseMessage)
      → verify_and_parse_cose_sign1 coset crypto raw expected ≡ ok p
      → (c : CoseSign1) × (coset.from_slice raw ≡ ok c)
        × (parse_fields c ≡ ok p)
        × (p.pubkey ≡ expected)
        × (crypto.verify_prehash expected
              (crypto.keccak256 (coset.tbs_data c.original_data c.protected c.payload))
              p.signature
            ≡ true)
  unfolding verify_and_parse_cose_sign1 verifying_key_from_bytes
  verify_and_parse_sound raw expected p h = elim (Result-cases (coset.from_slice raw)) [
    | inr (x, e) ↦ absurd (let bad = rw (e, verify_and_parse_cose_sign1) at h in cc)
    | inl (c, e) ↦
        let h' = rw (e, verify_and_parse_cose_sign1) at h in
        let v = verified c raw expected p h' in (c, e, v.0, v.1, v.2)
  ]

  checks-ok :
      (c : CoseSign1) (pubkey signature : Bytes) (p : ParsedCoseMessage)
      → extract_pubkey_bytes c.unprotected.rest ≡ ok pubkey
      → exactly_64 c.signature ≡ ok signature
      → crypto.is_key (4 ∷ pubkey) ≡ true
      → crypto.is_signature signature ≡ true
      → crypto.verify_prehash pubkey
          (crypto.keccak256 (coset.tbs_data c.original_data c.protected c.payload))
          signature
        ≡ true
      → parse_fields c ≡ ok p
      → checks c pubkey ≡ ok p
  unfolding extract_pubkey verifying_key_from_bytes signature_from_bytes verify_secp256k1
  checks-ok c pubkey signature p e g key sig good h = ground (arith, bytes_eq_refl pubkey)

  -- A message that is built for a 64-byte key, with a signature of that key, verifies against it
  -- and yields the fields it was built from.
  pub verify_and_parse-build :
      (laws : CosetLaws coset) (sequence timestamp : ℕ) (t : CborMessageType)
      (payload pubkey signature : Bytes) (sign_fn : Bytes → Result Bytes CborError) (raw : Bytes)
      → sequence < u64_mod
      → timestamp < u64_mod
      → length pubkey ≡ 64
      → length signature ≡ 64
      → crypto.is_key (4 ∷ pubkey) ≡ true
      → crypto.is_signature signature ≡ true
      → crypto.verify_prehash pubkey
          (crypto.keccak256
            (coset.tbs_data none (protected_header sequence timestamp t) (some payload)))
          signature
        ≡ true
      → sign_fn (coset.tbs_data none (protected_header sequence timestamp t) (some payload))
        ≡ ok signature
      → build_cose_sign1 coset sequence timestamp t payload pubkey sign_fn ≡ ok raw
      → verify_and_parse_cose_sign1 coset crypto raw pubkey
        ≡ ok (parsed sequence timestamp t payload pubkey signature)
  unfolding verify_and_parse_cose_sign1
  verify_and_parse-build laws sequence timestamp t payload pubkey signature sign_fn raw hs ht hp hg
        key sig good e h =
      let (signature', e', original, written, read) =
        build-eq-ok coset laws sequence timestamp t payload pubkey sign_fn raw h in
      let same : signature' ≡ signature = cc in
      let read' : coset.from_slice raw
          ≡ ok (record (signed sequence timestamp (as_u8 t) payload pubkey signature) {
            original_data = some original;
          }) =
        read
        ∙ ap
            (λ x. ok (record (signed sequence timestamp (as_u8 t) payload pubkey x) {
              original_data = some original;
            }))
            same in
      let c : CoseSign1 = record (signed sequence timestamp (as_u8 t) payload pubkey signature) {
        original_data = some original;
      } in
      let good' =
        ap (λ x. crypto.verify_prehash pubkey (crypto.keccak256 x) signature)
          (laws.original_header (protected_header sequence timestamp t) original (some payload)
            written)
        ∙ good in
      let own_key : extract_pubkey_bytes c.unprotected.rest ≡ ok pubkey = key_of pubkey hp in
      let own_signature : exactly_64 c.signature ≡ ok signature = rw hg in
      rw read' (
        checks-ok c pubkey signature (parsed sequence timestamp t payload pubkey signature) own_key
          own_signature key sig good'
          (parse_fields_low_byte sequence timestamp (as_u8 t) t payload pubkey signature hs ht
            (as_u8-lt t) hp hg (as_u8-low t)))
