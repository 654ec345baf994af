-- ===== src/Shared/Cbor/Batch.antt =====
-- crates/synddb-shared/src/types/cbor/batch.rs: batches of signed messages.
-- A `CborSignedMessage` is its `COSE_Sign1` bytes. The CBOR codec is a parameter.
use synddb.Prelude.{
  ℕ, List, [], ◌∷◌, ◌++◌, ◌==◌, if◌then◌else◌, length, map, sum, Result, ok, err, ◌>>=◌, ◌>>◌,
}
use synddb.Shared.Bytes.{Bytes, bytes_eq, be_bytes}
use synddb.Shared.Cbor.Error.{CborError, invalid_batch, signature_verification}
use synddb.Shared.Cbor.Crypto.{Crypto, verifying_key_from_bytes}
use synddb.Shared.Cbor.Cose.{
  Coset, ParsedCoseMessage, extract_sequence, verify_and_parse_cose_sign1,
}

abbrev pub batch_version : ℕ
batch_version = 1

pub record CborBatch : Type 0 where
  pub version : ℕ
  pub start_sequence : ℕ
  pub end_sequence : ℕ
  pub created_at : ℕ
  pub content_hash : Bytes
  pub messages : List Bytes
  pub batch_signature : Bytes
  pub pubkey : Bytes

-- The serialized form, whose byte strings may have any length.
pub record CborBatchWire : Type 0 where
  pub version : ℕ
  pub start_sequence : ℕ
  pub end_sequence : ℕ
  pub created_at : ℕ
  pub content_hash : Bytes
  pub messages : List Bytes
  pub batch_signature : Bytes
  pub pubkey : Bytes

abbrev pub concat : List Bytes → Bytes
concat [] = []
concat (m ∷ ms) = m ++ concat ms

abbrev pub last_of : Bytes → List Bytes → Bytes
last_of m [] = m
last_of m (n ∷ ns) = last_of n ns

-- The bytes under the hash that is signed.
unfoldable pub signing_data : ℕ → ℕ → Bytes → Bytes
signing_data start_sequence end_sequence content_hash =
    be_bytes 8 start_sequence ++ (be_bytes 8 end_sequence ++ content_hash)

-- `try_into` an array of n bytes.
abbrev pub exactly : ℕ → Bytes → Result Bytes CborError
exactly n b = if length b == n then ok b else err invalid_batch

unfoldable pub to_wire : CborBatch → CborBatchWire
to_wire b = record {
  version = b.version;
  start_sequence = b.start_sequence;
  end_sequence = b.end_sequence;
  created_at = b.created_at;
  content_hash = b.content_hash;
  messages = b.messages;
  batch_signature = b.batch_signature;
  pubkey = b.pubkey;
}

unfoldable pub from_wire : CborBatchWire → Result CborBatch CborError
from_wire w = do
  content_hash ← exactly 32 w.content_hash
  batch_signature ← exactly 64 w.batch_signature
  pubkey ← exactly 64 w.pubkey
  ok (record {
    version = w.version;
    start_sequence = w.start_sequence;
    end_sequence = w.end_sequence;
    created_at = w.created_at;
    content_hash = content_hash;
    messages = w.messages;
    batch_signature = batch_signature;
    pubkey = pubkey;
  })

-- ciborium over the wire format.
pub record Ciborium : Type 0 where
  pub into_writer : CborBatchWire → Result Bytes CborError
  pub from_reader : Bytes → Result CborBatchWire CborError

unfoldable pub to_cbor : Ciborium → CborBatch → Result Bytes CborError
unfolding to_wire
to_cbor codec b = codec.into_writer (to_wire b)

unfoldable pub from_cbor : Ciborium → Bytes → Result CborBatch CborError
unfolding from_wire
from_cbor codec raw = do w ← codec.from_reader raw; from_wire w

unfoldable pub total_message_bytes : CborBatch → ℕ
total_message_bytes b = sum (map (λ m. length m) b.messages)

module _ (crypto : Crypto) where
  unfoldable pub compute_content_hash : List Bytes → Bytes
  compute_content_hash messages = crypto.sha256 (concat messages)

  unfoldable pub compute_signing_payload : ℕ → ℕ → Bytes → Bytes
  compute_signing_payload start_sequence end_sequence content_hash =
      crypto.keccak256 (signing_data start_sequence end_sequence content_hash)

  -- The hash that is signed is that of the payload.
  unfoldable pub verify_batch_signature : CborBatch → Result (Unit {0}) CborError
  unfolding compute_content_hash compute_signing_payload
  verify_batch_signature b =
      if bytes_eq (compute_content_hash b.messages) b.content_hash
      then (let payload = compute_signing_payload b.start_sequence b.end_sequence b.content_hash in
          let message_hash = crypto.keccak256 payload in
          if crypto.is_key (4 ∷ b.pubkey)
          then (if crypto.is_signature b.batch_signature
              then (if crypto.verify_prehash b.pubkey message_hash b.batch_signature
                  then ok tt
                  else err signature_verification)
              else err signature_verification)
          else err signature_verification)
      else err signature_verification

  module _ (coset : Coset) where
    -- `CborBatch::new`
    unfoldable pub new_batch :
        List Bytes → ℕ → Bytes → (Bytes → Result Bytes CborError) → Result CborBatch CborError
    unfolding compute_content_hash compute_signing_payload
    new_batch [] created_at pubkey sign_fn = err invalid_batch
    new_batch (m ∷ ms) created_at pubkey sign_fn = do
      start_sequence ← extract_sequence coset m
      end_sequence ← extract_sequence coset (last_of m ms)
      let content_hash = compute_content_hash (m ∷ ms)
      signature ← sign_fn (compute_signing_payload start_sequence end_sequence content_hash)
      ok (record {
        version = batch_version;
        start_sequence = start_sequence;
        end_sequence = end_sequence;
        created_at = created_at;
        content_hash = content_hash;
        messages = m ∷ ms;
        batch_signature = signature;
        pubkey = pubkey;
      })

    abbrev relabel : Result ParsedCoseMessage CborError → Result (Unit {0}) CborError
    relabel (ok p) = ok tt
    relabel (err e) = err signature_verification

    unfoldable pub verify_messages : Bytes → List Bytes → Result (Unit {0}) CborError
    verify_messages key [] = ok tt
    verify_messages key (m ∷ ms) =
        relabel (verify_and_parse_cose_sign1 coset crypto m key) >> verify_messages key ms

    unfoldable pub verify_all_signatures : CborBatch → Result (Unit {0}) CborError
    unfolding verify_batch_signature verify_messages verifying_key_from_bytes
    verify_all_signatures b = do
      verify_batch_signature b
      key ← verifying_key_from_bytes crypto b.pubkey
      verify_messages key b.messages
