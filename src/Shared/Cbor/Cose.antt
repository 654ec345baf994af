-- ===== src/Shared/Cbor/Cose.antt =====
-- crates/synddb-shared/src/types/cbor/cose_helpers.rs and message.rs: `COSE_Sign1` messages.
-- The codec of the coset crate is a parameter; its structures are the parts that the code reads.
use synddb.Prelude.{
  ℕ, ◌-◌, ◌%◌, Bool, false, String, Option, none, some, List, [], ◌∷◌, ◌==◌, str_eq, if◌then◌else◌,
  length, Result, ok, err, ◌>>=◌, ◌>>◌, u64_mod,
}
use synddb.Shared.Bytes.{Bytes, bytes_eq}
use synddb.Shared.Cbor.Error.{
  CborError, CborMessageType, cose, missing_header, signature_verification, as_u8, from_u8,
}
use synddb.Shared.Cbor.Crypto.{
  Crypto, verifying_key_from_bytes, signature_from_bytes, verify_secp256k1,
}

-- `negsuc n` is -(n + 1).
pub data ℤ : Type 0 where
  pos : ℕ → ℤ
  negsuc : ℕ → ℤ

abbrev pub int_eq : ℤ → ℤ → Bool
int_eq (pos a) (pos b) = a == b
int_eq (negsuc a) (negsuc b) = a == b
int_eq (pos a) (negsuc b) = false
int_eq (negsuc a) (pos b) = false

-- `n as u64` of an i128.
abbrev pub as_u64 : ℤ → ℕ
as_u64 (pos n) = n % u64_mod
as_u64 (negsuc n) = u64_mod - 1 - n % u64_mod

pub data Label : Type 0 where
  int : ℤ → Label
  text : String → Label

-- The values that the code distinguishes; any other value is `other_value`.
pub data Value : Type 0 where
  integer : ℤ → Value
  bytes : Bytes → Value
  other_value : Value

pub data Algorithm : Type 0 where
  es256k other_algorithm : Algorithm

pub record Header : Type 0 where
  pub alg : Option Algorithm
  pub rest : List (Label × Value)

-- A message that was decoded keeps the bytes of its protected header.
pub record CoseSign1 : Type 0 where
  pub original_data : Option Bytes
  pub protected : Header
  pub unprotected : Header
  pub payload : Option Bytes
  pub signature : Bytes

-- The coset crate: its codec, and the `Sig_structure` of a message with no external data. The
-- `Sig_structure` does not cover the signature; it is over the original bytes of the header where there
-- are any, else over its encoding.
pub record Coset : Type 0 where
  pub from_slice : Bytes → Result CoseSign1 CborError
  pub to_vec : CoseSign1 → Result Bytes CborError
  pub header_to_vec : Header → Result Bytes CborError
  pub tbs_data : Option Bytes → Header → Option Bytes → Bytes

abbrev pub header_sequence : ℤ
header_sequence = negsuc 65_536

abbrev pub header_timestamp : ℤ
header_timestamp = negsuc 65_537

abbrev pub header_msg_type : ℤ
header_msg_type = negsuc 65_538

pub record ParsedCoseMessage : Type 0 where
  pub sequence : ℕ
  pub timestamp : ℕ
  pub message_type : CborMessageType
  pub payload : Bytes
  pub signature : Bytes
  pub pubkey : Bytes

abbrev pub protected_header : ℕ → ℕ → CborMessageType → Header
protected_header sequence timestamp message_type = record {
  alg = some es256k;
  rest =
      (int header_sequence, integer (pos sequence))
      ∷ (int header_timestamp, integer (pos timestamp))
      ∷ (int header_msg_type, integer (pos (as_u8 message_type)))
      ∷ [];
}

abbrev pub unprotected_header : Bytes → Header
unprotected_header pubkey = record { alg = none; rest = (text "pubkey", bytes pubkey) ∷ [] }

abbrev pub is_label : ℤ → Label → Bool
is_label label (int l) = int_eq l label
is_label label (text s) = false

abbrev is_pubkey : Label → Bool
is_pubkey (int l) = false
is_pubkey (text s) = str_eq s "pubkey"

-- The first entry with the label whose value is an integer.
abbrev integer_or : Value → Option ℕ → Option ℕ
integer_or (integer i) rest = some (as_u64 i)
integer_or (bytes b) rest = rest
integer_or other_value rest = rest

unfoldable pub extract_u64 : List (Label × Value) → ℤ → Option ℕ
extract_u64 [] label = none
extract_u64 ((key, value) ∷ entries) label =
    let rest = extract_u64 entries label in
    if is_label label key then integer_or value rest else rest

abbrev pub or_missing : Option ℕ → String → Result ℕ CborError
or_missing none name = err (missing_header name)
or_missing (some n) name = ok n

-- `try_into` an array of 64 bytes.
abbrev pub exactly_64 : Bytes → Result Bytes CborError
exactly_64 b = if length b == 64 then ok b else err cose

abbrev bytes_or : Value → Result Bytes CborError → Result Bytes CborError
bytes_or (integer i) rest = rest
bytes_or (bytes b) rest = exactly_64 b
bytes_or other_value rest = rest

unfoldable pub extract_pubkey_bytes : List (Label × Value) → Result Bytes CborError
extract_pubkey_bytes [] = err (missing_header "pubkey")
extract_pubkey_bytes ((key, value) ∷ entries) =
    let rest = extract_pubkey_bytes entries in if is_pubkey key then bytes_or value rest else rest

abbrev pub or_default : Option Bytes → Bytes
or_default none = []
or_default (some b) = b

unfoldable pub parse_fields : CoseSign1 → Result ParsedCoseMessage CborError
unfolding extract_u64 extract_pubkey_bytes from_u8
parse_fields c = do
  sequence ← or_missing (extract_u64 c.protected.rest header_sequence) "sequence"
  timestamp ← or_missing (extract_u64 c.protected.rest header_timestamp) "timestamp"
  code ← or_missing (extract_u64 c.protected.rest header_msg_type) "message_type"
  message_type ← from_u8 (code % 256)
  pubkey ← extract_pubkey_bytes c.unprotected.rest
  signature ← exactly_64 c.signature
  ok (record {
    sequence = sequence;
    timestamp = timestamp;
    message_type = message_type;
    payload = or_default c.payload;
    signature = signature;
    pubkey = pubkey;
  })

module _ (coset : Coset) where
  open coset use {from_slice, to_vec, header_to_vec, tbs_data}

  -- Builds the message, has its `Sig_structure` signed, and serializes it.
  unfoldable pub build_cose_sign1 :
      ℕ
      → ℕ
      → CborMessageType
      → Bytes
      → Bytes
      → (Bytes → Result Bytes CborError)
      → Result Bytes CborError
  build_cose_sign1 sequence timestamp message_type payload pubkey sign_fn =
      let protected = protected_header sequence timestamp message_type in
      let unprotected = unprotected_header pubkey in
      sign_fn (tbs_data none protected (some payload)) >>= λ signature. to_vec (record {
        original_data = none;
        protected = protected;
        unprotected = unprotected;
        payload = some payload;
        signature = signature;
      })

  unfoldable pub parse_cose_sign1 : Bytes → Result ParsedCoseMessage CborError
  unfolding parse_fields
  parse_cose_sign1 raw = do c ← from_slice raw; parse_fields c

  unfoldable pub extract_sequence : Bytes → Result ℕ CborError
  unfolding extract_u64
  extract_sequence raw = do
    c ← from_slice raw
    or_missing (extract_u64 c.protected.rest header_sequence) "sequence"

  unfoldable pub extract_protected_header : Bytes → Result Bytes CborError
  extract_protected_header raw = do c ← from_slice raw; header_to_vec c.protected

  module _ (crypto : Crypto) where
    unfoldable pub extract_pubkey : List (Label × Value) → Result Bytes CborError
    unfolding extract_pubkey_bytes verifying_key_from_bytes
    extract_pubkey entries = do
      raw ← extract_pubkey_bytes entries
      verifying_key_from_bytes crypto raw

    unfoldable pub verify_and_parse_cose_sign1 : Bytes → Bytes → Result ParsedCoseMessage CborError
    unfolding extract_pubkey signature_from_bytes verify_secp256k1 parse_cose_sign1
    verify_and_parse_cose_sign1 raw expected = do
      c ← from_slice raw
      pubkey ← extract_pubkey c.unprotected.rest
      if bytes_eq pubkey expected
          then (do
            signature_bytes ← exactly_64 c.signature
            signature ← signature_from_bytes crypto signature_bytes
            verify_secp256k1 crypto (tbs_data c.original_data c.protected c.payload) signature
                expected
            parse_cose_sign1 raw)
          else err signature_verification
