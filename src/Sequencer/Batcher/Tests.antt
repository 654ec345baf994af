-- ===== src/Sequencer/Batcher/Tests.antt =====
-- The batcher at concrete events, with small stand-ins for the crates and the transport.
use synddb.Prelude.{ℕ, ◌≡◌, refl, true, List, [], ◌∷◌, ◌++◌, Result, ok, err, arith, inl}
use synddb.Shared.Bytes.{Bytes}
use synddb.Shared.Cbor.Error.{CborError, cbor}
use synddb.Shared.Cbor.Crypto.{Crypto, signature_from_bytes}
use synddb.Shared.Cbor.Cose.{Coset, extract_sequence}
use synddb.Shared.Cbor.CoseLaws.{signed}
use synddb.Shared.Cbor.Batch.{CborBatch, new_batch}
use synddb.Sequencer.Batcher.{
  World, Env, Event, add_message, shutdown, PublishMetadata, network, spawn, sign_batch_data,
  flush_batch, handle_add_message, step, run,
}
use synddb.Sequencer.Batcher.Flush.{stored, held, flush_batch-Disposed}
use synddb.Sequencer.Batcher.Invariant.{IsValid}
use synddb.Sequencer.Batcher.Delivery.{received, run-stored}

abbrev crypto : Crypto
crypto = record {
  is_key = λ k. true;
  is_signature = λ s. true;
  verify_prehash = λ k h s. true;
  keccak256 = λ b. b;
  sha256 = λ b. b;
}

-- A message is a list of one number, its sequence.
abbrev head_or_zero : Bytes → ℕ
head_or_zero [] = 0
head_or_zero (b ∷ bs) = b

abbrev coset : Coset
coset = record {
  from_slice = λ raw. ok (signed (head_or_zero raw) 0 0 [] [] []);
  to_vec = λ c. err cbor;
  header_to_vec = λ h. err cbor;
  tbs_data = λ original h payload. [];
}

abbrev sign_raw : Bytes → Result Bytes CborError
sign_raw hash = ok (9 ∷ [])

abbrev published_as : CborBatch → PublishMetadata
published_as b = record {
  reference = "local";
  content_hash = b.content_hash;
  compressed_bytes = 10;
  uncompressed_bytes = 20;
}

abbrev online : Env
online = record { created_at = 1_700_000_000; now = 10; publish = λ b. ok (published_as b) }

abbrev offline : Env
offline = record { created_at = 1_700_000_000; now = 10; publish = λ b. err network }

abbrev start : World
start = record {
  batcher = spawn (record { max_messages = 2; max_batch_bytes = 1000; flush_interval = 5 }) 0;
  storage = [];
}

abbrev events : List (Env × Event)
events =
    (online, add_message (1 ∷ []))
    ∷ (online, add_message (2 ∷ []))
    ∷ (online, add_message (3 ∷ []))
    ∷ (online, shutdown)
    ∷ []

one_pending : World
unfolding step handle_add_message
one_pending = (step crypto coset [] sign_raw online (add_message (1 ∷ [])) start).0

two_batches :
    stored (run crypto coset [] sign_raw events start).storage ≡ (1 ∷ []) ∷ (2 ∷ []) ∷ (3 ∷ []) ∷ []
unfolding run step handle_add_message flush_batch new_batch extract_sequence signature_from_bytes
two_batches = refl

-- The second message reaches the threshold; the transport is down, and both messages are gone.
lost : held (step crypto coset [] sign_raw offline (add_message (2 ∷ [])) one_pending).0 ≡ []
unfolding one_pending step handle_add_message flush_batch new_batch extract_sequence
    signature_from_bytes
lost = refl

flush_batch-Disposed_example :
    held (flush_batch crypto coset [] sign_raw online one_pending).0 ≡ held one_pending
unfolding one_pending flush_batch new_batch extract_sequence signature_from_bytes
flush_batch-Disposed_example = (flush_batch-Disposed crypto coset [] sign_raw online one_pending).0

start-IsValid : IsValid start
start-IsValid = record {
  bytes = omega arith;
  within = inl refl;
  batches = omega arith;
  messages = omega arith;
}

signs :
    (raw : Bytes)
    → (signature : Bytes) × (sign_batch_data crypto coset [] sign_raw raw ≡ ok signature)
unfolding sign_batch_data signature_from_bytes
signs raw = (9 ∷ [], refl)

run-stored_example :
    stored (run crypto coset [] sign_raw events start).storage ≡ held start ++ received events
unfolding extract_sequence
run-stored_example =
    run-stored crypto coset [] sign_raw events start signs
      (
        (accepts, ((1, refl), tt)),
        ((accepts, ((2, refl), tt)), ((accepts, ((3, refl), tt)), ((accepts, tt), tt))),
      )
      tt refl
  where
    accepts : (b : CborBatch) → (m : PublishMetadata) × (online.publish b ≡ ok m)
    accepts b = (published_as b, refl)
