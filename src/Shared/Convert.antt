-- ===== src/Shared/Convert.antt =====
-- crates/synddb-shared/src/types/cbor/convert.rs: CBOR messages and batches turned into those that the
-- validator reads. `hex::encode` is a parameter.
pub mod Entries
pub mod Laws
pub mod Tests
use Prim.Native.String.{◌++◌ as text_append}
use synddb.Prelude.{String, List, [], ◌∷◌, Result, ok, ◌>>=◌, ◌>>◌}
use synddb.Shared.Bytes.{Bytes}
use synddb.Shared.Cbor.Error.{CborError, CborMessageType}
use synddb.Shared.Cbor.Crypto.{Crypto, verifying_key_from_bytes}
use synddb.Shared.Cbor.Cose.{
  Coset, ParsedCoseMessage, extract_protected_header, parse_cose_sign1, verify_and_parse_cose_sign1,
}
use synddb.Shared.Cbor.Batch.{CborBatch, verify_batch_signature}
use synddb.Shared.Message.{MessageType, SignedMessage, SignedBatch}

abbrev pub message_type_from : CborMessageType → MessageType
message_type_from CborMessageType.changeset = MessageType.changeset
message_type_from CborMessageType.withdrawal = MessageType.withdrawal
message_type_from CborMessageType.snapshot = MessageType.snapshot

module _ (coset : Coset) (crypto : Crypto) (encode : Bytes → String) where
  abbrev pub hex_text : Bytes → String
  hex_text raw = text_append "0x" (encode raw)

  -- `compute_message_hash` is keccak256 of the payload.
  abbrev pub signed_message : ParsedCoseMessage → Bytes → SignedMessage
  signed_message parsed cose_protected_header = record {
    sequence = parsed.sequence;
    timestamp = parsed.timestamp;
    message_type = message_type_from parsed.message_type;
    payload = parsed.payload;
    message_hash = hex_text (crypto.keccak256 parsed.payload);
    signature = hex_text parsed.signature;
    signer = hex_text parsed.pubkey;
    cose_protected_header = cose_protected_header;
  }

  unfoldable pub to_signed_message : Bytes → Bytes → Result SignedMessage CborError
  unfolding verify_and_parse_cose_sign1 extract_protected_header
  to_signed_message expected_pubkey raw = do
    parsed ← verify_and_parse_cose_sign1 coset crypto raw expected_pubkey
    cose_protected_header ← extract_protected_header coset raw
    ok (signed_message parsed cose_protected_header)

  unfoldable pub to_signed_message_unchecked : Bytes → Result SignedMessage CborError
  unfolding parse_cose_sign1 extract_protected_header
  to_signed_message_unchecked raw = do
    parsed ← parse_cose_sign1 coset raw
    cose_protected_header ← extract_protected_header coset raw
    ok (signed_message parsed cose_protected_header)

  -- `map` and `collect`: the first error ends it.
  unfoldable pub collect :
      (Bytes → Result SignedMessage CborError) → List Bytes → Result (List SignedMessage) CborError
  collect convert [] = ok []
  collect convert (m ∷ ms) =
      let rest = collect convert ms in do first ← convert m; more ← rest; ok (first ∷ more)

  abbrev pub signed_batch : CborBatch → List SignedMessage → SignedBatch
  signed_batch batch messages = record {
    start_sequence = batch.start_sequence;
    end_sequence = batch.end_sequence;
    messages = messages;
    batch_signature = hex_text batch.batch_signature;
    signer = hex_text batch.pubkey;
    created_at = batch.created_at;
    content_hash = batch.content_hash;
  }

  unfoldable pub to_signed_batch : CborBatch → Result SignedBatch CborError
  unfolding verify_batch_signature verifying_key_from_bytes collect to_signed_message
  to_signed_batch batch = do
    verify_batch_signature crypto batch
    verifying_key ← verifying_key_from_bytes crypto batch.pubkey
    messages ← collect (to_signed_message verifying_key) batch.messages
    ok (signed_batch batch messages)

  unfoldable pub to_signed_batch_unchecked : CborBatch → Result SignedBatch CborError
  unfolding collect to_signed_message_unchecked
  to_signed_batch_unchecked batch = do
    messages ← collect to_signed_message_unchecked batch.messages
    ok (signed_batch batch messages)
