-- ===== src/Sequencer/Batcher.antt =====
-- crates/synddb-sequencer/src/batcher.rs, with the transport interface of transport/traits.rs.
-- The commands and timer ticks that the event loop takes up are a list of events. What an event
-- meets from outside, the clock and the transport's answer, stands beside it; the batches that the
-- transport accepted are kept in order as its storage.
pub mod Flush
pub mod Invariant
pub mod Accepting
pub mod Delivery
pub mod Tests
use synddb.Prelude.{
  ℕ, ◌+◌, ◌-◌, ◌%◌, Bool, true, false, ◌&&◌, ◌||◌, not, String, Option, none, some, List, [], ◌∷◌,
  ◌++◌, map, leb, if◌then◌else◌, length, Result, ok, err, ◌>>=◌, u64_mod,
}
use synddb.Shared.Bytes.{Bytes}
use synddb.Shared.Cbor.Error.{CborError}
use synddb.Shared.Cbor.Crypto.{Crypto, signature_from_bytes}
use synddb.Shared.Cbor.Cose.{Coset}
use synddb.Shared.Cbor.Batch.{CborBatch, new_batch}

pub record BatchStats : Type 0 where
  pub batches_published : ℕ
  pub messages_published : ℕ
  pub bytes_published : ℕ
  pub bytes_uncompressed : ℕ
  pub pending_messages : ℕ
  pub pending_bytes : ℕ
  pub last_flush_timestamp : ℕ

abbrev pub no_stats : BatchStats
no_stats = record {
  batches_published = 0;
  messages_published = 0;
  bytes_published = 0;
  bytes_uncompressed = 0;
  pending_messages = 0;
  pending_bytes = 0;
  last_flush_timestamp = 0;
}

pub record PendingMessage : Type 0 where
  pub message : Bytes
  pub size : ℕ

pub record PublishMetadata : Type 0 where
  pub reference : String
  pub content_hash : Bytes
  pub compressed_bytes : ℕ
  pub uncompressed_bytes : ℕ

pub data TransportError : Type 0 where
  storage serialization network not_found config_error signature_verification : TransportError

pub data BatcherError : Type 0 where
  transport : TransportError → BatcherError
  cbor : CborError → BatcherError

pub record BatchConfig : Type 0 where
  pub max_messages : ℕ
  pub max_batch_bytes : ℕ
  pub flush_interval : ℕ

pub record Batcher : Type 0 where
  pub config : BatchConfig
  pub open config use *
  pub pending : List PendingMessage
  pub pending_bytes : ℕ
  pub stats : BatchStats
  pub last_flush : ℕ

-- The batcher and what the transport has accepted.
pub record World : Type 0 where
  pub batcher : Batcher
  pub storage : List CborBatch

-- What one event meets: the clock as a Unix time and as an `Instant`, and the transport's answer.
pub record Env : Type 0 where
  pub created_at : ℕ
  pub now : ℕ
  pub publish : CborBatch → Result PublishMetadata TransportError

pub data Event : Type 0 where
  add_message : Bytes → Event
  flush get_stats shutdown tick : Event

pub data Response : Type 0 where
  added : Result (Unit {0}) BatcherError → Response
  flushed : Result (Option PublishMetadata) BatcherError → Response
  stats_are : BatchStats → Response
  no_response : Response

abbrev pub is_empty : List PendingMessage → Bool
is_empty [] = true
is_empty (m ∷ ms) = false

abbrev pub contents : List PendingMessage → List Bytes
contents = map (λ m. m.message)

abbrev pub spawn : BatchConfig → ℕ → Batcher
spawn config now = record {
  config = config;
  pending = [];
  pending_bytes = 0;
  stats = no_stats;
  last_flush = now;
}

-- `self.pending.drain(..)` and `self.pending_bytes = 0`
abbrev pub drained : Batcher → Batcher
drained b = record b { pending = []; pending_bytes = 0 }

abbrev pub record_published : Env → ℕ → PublishMetadata → Batcher → Batcher
record_published env count m b = record b {
  stats = record b.stats {
    batches_published = (b.stats.batches_published + 1) % u64_mod;
    messages_published = (b.stats.messages_published + count) % u64_mod;
    bytes_published = (b.stats.bytes_published + m.compressed_bytes) % u64_mod;
    bytes_uncompressed = (b.stats.bytes_uncompressed + m.uncompressed_bytes) % u64_mod;
    last_flush_timestamp = env.created_at;
  };
  last_flush = env.now;
}

module _ (crypto : Crypto) (coset : Coset) (pubkey : Bytes)
    (sign_raw : Bytes → Result Bytes CborError) where
  -- `sign_raw` is the key manager's signature of a hash, r and s.
  unfoldable pub sign_batch_data : Bytes → Result Bytes CborError
  sign_batch_data raw = sign_raw (crypto.keccak256 raw) >>= signature_from_bytes crypto

  abbrev after_publish :
      Env
      → World
      → CborBatch
      → Result PublishMetadata TransportError
      → World × Result (Option PublishMetadata) BatcherError
  after_publish env w batch (err e) = (record w { batcher = drained w.batcher }, err (transport e))
  after_publish env w batch (ok m) = (
    record {
      batcher = record_published env (length w.batcher.pending) m (drained w.batcher);
      storage = w.storage ++ batch ∷ [];
    },
    ok (some m),
  )

  abbrev after_build :
      Env
      → World
      → Result CborBatch CborError
      → World × Result (Option PublishMetadata) BatcherError
  after_build env w (err e) = (record w { batcher = drained w.batcher }, err (cbor e))
  after_build env w (ok batch) = after_publish env w batch (env.publish batch)

  -- The pending messages are drained before the batch is built and published.
  unfoldable pub flush_batch : Env → World → World × Result (Option PublishMetadata) BatcherError
  unfolding sign_batch_data
  flush_batch env w =
      if is_empty w.batcher.pending
      then (w, ok none)
      else after_build env w (
          new_batch crypto coset (contents w.batcher.pending) env.created_at pubkey sign_batch_data)

  abbrev pub pushed : Bytes → Batcher → Batcher
  pushed message b = record b {
    pending = b.pending ++ record { message = message; size = length message } ∷ [];
    pending_bytes = (b.pending_bytes + length message) % u64_mod;
  }

  abbrev pub should_flush : Batcher → Bool
  should_flush b = leb b.max_messages (length b.pending) || leb b.max_batch_bytes b.pending_bytes

  abbrev forget {ℓ} : {A E : Type ℓ} → Result A E → Result (Unit {ℓ}) E
  forget (ok a) = ok tt
  forget (err e) = err e

  unfoldable pub handle_add_message : Env → Bytes → World → World × Result (Unit {0}) BatcherError
  handle_add_message env message w =
      let w' = record w { batcher = pushed message w.batcher } in
      let (w'', result) = flush_batch env w' in
      if should_flush w'.batcher then (w'', forget result) else (w', ok tt)

  abbrev pub counted : Batcher → Batcher
  counted b = record b {
    stats = record b.stats { pending_messages = length b.pending; pending_bytes = b.pending_bytes };
  }

  -- One round of the loop of `run`. A flush on shutdown or on a tick only logs its error.
  unfoldable pub step : Env → Event → World → World × Response
  step env (add_message message) w =
      let (w', result) = handle_add_message env message w in (w', added result)
  step env flush w = let (w', result) = flush_batch env w in (w', flushed result)
  step env get_stats w =
      (record w { batcher = counted w.batcher }, stats_are (counted w.batcher).stats)
  step env shutdown w =
      if not (is_empty w.batcher.pending)
      then ((flush_batch env w).0, no_response)
      else (w, no_response)
  step env tick w =
      if not (is_empty w.batcher.pending)
        && leb w.batcher.flush_interval (env.now - w.batcher.last_flush)
      then ((flush_batch env w).0, no_response)
      else (w, no_response)

  -- The loop ends after a shutdown, and goes on else.
  unfoldable pub run : List (Env × Event) → World → World
  run [] w = w
  run ((env, shutdown) ∷ events) w = (step env shutdown w).0
  run ((env, event) ∷ events) w = run events (step env event w).0
