-- ===== src/Shared/Message.antt =====
-- crates/synddb-shared/src/types/message.rs: messages and batches as the validator reads them, and
-- the checks of their signatures. The codecs of the hex and ciborium crates are parameters.
-- The texts of the errors are not modelled.
pub mod Laws
pub mod Header
pub mod Tests
use Prim.Native.String.{len, slice}
use text.Mathlib.Text.{starts_with}
use synddb.Prelude.{
  ℕ, String, Option, none, some, List, [], ◌∷◌, ◌++◌, ◌==◌, if◌then◌else◌, length, Result, ok, err,
  ◌>>=◌, ◌>>◌,
}
use synddb.Shared.Bytes.{Bytes, be_bytes}
use synddb.Shared.Cbor.Crypto.{
  Crypto, verifying_key_from_bytes, signature_from_bytes, verify_secp256k1,
}
use synddb.Shared.Cbor.Cose.{ℤ, int_eq, as_u64, header_sequence, header_timestamp}

pub data VerificationError : Type 0 where
  invalid_signature invalid_public_key verification_failed protected_header_parse :
      VerificationError
  -- field, outer value, value of the protected header
  header_mismatch : String → ℕ → ℕ → VerificationError

pub data MessageType : Type 0 where
  changeset withdrawal snapshot : MessageType

pub record SignedMessage : Type 0 where
  pub sequence : ℕ
  pub timestamp : ℕ
  pub message_type : MessageType
  pub payload : Bytes
  pub message_hash : String
  pub signature : String
  pub signer : String
  pub cose_protected_header : Bytes

pub record SignedBatch : Type 0 where
  pub start_sequence : ℕ
  pub end_sequence : ℕ
  pub messages : List SignedMessage
  pub batch_signature : String
  pub signer : String
  pub created_at : ℕ
  pub content_hash : Bytes

-- The values of a decoded header that the code distinguishes.
pub data Node : Type 0 where
  integer : ℤ → Node
  other_node : Node

pub data Document : Type 0 where
  mapping : List (Node × Node) → Document
  other_document : Document

-- The items of the array that the code encodes.
pub data Item : Type 0 where
  text_item : String → Item
  bytes_item : Bytes → Item

pub record Codec : Type 0 where
  -- `hex::decode`
  pub decode : String → Option Bytes
  -- `ciborium::from_reader` as a value
  pub from_reader : Bytes → Option Document
  -- `ciborium::into_writer` of an array
  pub array : List Item → Bytes

-- `s.strip_prefix("0x").unwrap_or(s)`
abbrev pub strip_0x : String → String
strip_0x s = if starts_with s "0x" then slice s 2 (len s) else s

-- `header_i128 as u64`, where the value is an integer under the label.
abbrev pub last_of : ℤ → Node → Node → Option ℕ → Option ℕ
last_of label (integer key) (integer value) found =
    if int_eq key label then some (as_u64 value) else found
last_of label (integer key) other_node found = found
last_of label other_node value found = found

-- The loop over the entries, for one of the two labels. The last entry with the label counts.
unfoldable pub field_from : Option ℕ → ℤ → List (Node × Node) → Option ℕ
field_from found label [] = found
field_from found label ((key, value) ∷ entries) =
    field_from (last_of label key value found) label entries

abbrev pub or_parse_error : Option ℕ → Result ℕ VerificationError
or_parse_error none = err protected_header_parse
or_parse_error (some n) = ok n

abbrev pub entries_of : Option Document → Result (List (Node × Node)) VerificationError
entries_of none = err protected_header_parse
entries_of (some other_document) = err protected_header_parse
entries_of (some (mapping entries)) = ok entries

abbrev map_err {ℓ} : {A E F : Type ℓ} → F → Result A E → Result A F
map_err f (ok a) = ok a
map_err f (err e) = err f

-- `hex::decode(..)` and the length test.
abbrev pub decode_64 : VerificationError → Option Bytes → Result Bytes VerificationError
decode_64 e none = err e
decode_64 e (some b) = if length b == 64 then ok b else err e

abbrev pub same_field : String → ℕ → ℕ → Result (Unit {0}) VerificationError
same_field name outer header =
    if outer == header then ok tt else err (header_mismatch name outer header)

module _ (codec : Codec) (crypto : Crypto) where
  open codec use {decode, from_reader, array}
  open crypto use {keccak256}

  unfoldable pub build_cose_sig_structure : Bytes → Bytes → Bytes
  build_cose_sig_structure protected_header payload = array (
      text_item "Signature1"
      ∷ bytes_item protected_header
      ∷ bytes_item []
      ∷ bytes_item payload
      ∷ [])

  unfoldable pub parse_cose_protected_header_fields : Bytes → Result (ℕ × ℕ) VerificationError
  unfolding field_from
  parse_cose_protected_header_fields protected_header = do
    entries ← entries_of (from_reader protected_header)
    sequence ← or_parse_error (field_from none header_sequence entries)
    timestamp ← or_parse_error (field_from none header_timestamp entries)
    ok (sequence, timestamp)

  -- The common end of both checks.
  unfoldable pub check_signature : Bytes → Bytes → Bytes → Result (Unit {0}) VerificationError
  unfolding signature_from_bytes verifying_key_from_bytes verify_secp256k1
  check_signature message sig_bytes pubkey_bytes = do
    signature ← map_err invalid_signature (signature_from_bytes crypto sig_bytes)
    key ← map_err invalid_public_key (verifying_key_from_bytes crypto pubkey_bytes)
    map_err verification_failed (verify_secp256k1 crypto message signature key)

  unfoldable pub verify_signature : SignedMessage → Result (Unit {0}) VerificationError
  unfolding parse_cose_protected_header_fields build_cose_sig_structure check_signature
  verify_signature m = do
    header ← parse_cose_protected_header_fields m.cose_protected_header
    same_field "sequence" m.sequence header.0
    same_field "timestamp" m.timestamp header.1
    sig_bytes ← decode_64 invalid_signature (decode (strip_0x m.signature))
    pubkey_bytes ← decode_64 invalid_public_key (decode (strip_0x m.signer))
    check_signature (build_cose_sig_structure m.cose_protected_header m.payload) sig_bytes
        pubkey_bytes

  -- The batch signature covers the hash of the two bounds and the content hash.
  abbrev pub signing_payload : SignedBatch → Bytes
  signing_payload b =
      keccak256 (be_bytes 8 b.start_sequence ++ be_bytes 8 b.end_sequence ++ b.content_hash)

  unfoldable pub verify_batch_signature : SignedBatch → Result (Unit {0}) VerificationError
  unfolding check_signature
  verify_batch_signature b = do
    pubkey_bytes ← decode_64 invalid_public_key (decode (strip_0x b.signer))
    sig_bytes ← decode_64 invalid_signature (decode (strip_0x b.batch_signature))
    check_signature (signing_payload b) sig_bytes pubkey_bytes

  unfoldable pub verify_each : List SignedMessage → Result (Unit {0}) VerificationError
  unfolding verify_signature
  verify_each [] = ok tt
  verify_each (m ∷ ms) = let rest = verify_each ms in verify_signature m >> rest

  unfoldable pub verify_all_signatures : SignedBatch → Result (Unit {0}) VerificationError
  unfolding verify_batch_signature verify_each
  verify_all_signatures b = verify_batch_signature b >> verify_each b.messages
