-- ===== src/Client/Sender.antt =====
-- crates/synddb-client/src/sender.rs. The sequencer's side is the list of the changesets of the
-- batches that it answered with success.
pub mod Laws
pub mod Ledger
pub mod Tests
use Prim.Native.String.{◌++◌ as text_append}
use synddb.Prelude.{
  ℕ, ◌+◌, ◌-◌, ◌/◌, Bool, ◌||◌, String, Option, none, some, List, [], ◌∷◌, ◌++◌, leb, length, map,
  if◌then◌else◌, Result, ok, err,
}
use synddb.Shared.Bytes.{Bytes}
use synddb.Client.Retry.{Retried, done, unreachable, gave_up, retry_with_backoff}
use synddb.Client.Recovery.{
  Changeset, RecoveryError, FailedBatchRecovery, Table, nanos_per_sec, save_failed, get_failed,
  remove, increment_retry, cleanup_old_failures,
}

pub record ChangesetData : Type 0 where
  pub payload : Bytes
  pub sequence : ℕ
  pub timestamp : ℕ

pub record ChangesetBatchRequest : Type 0 where
  pub batch_id : String
  pub changesets : List ChangesetData
  pub attestation_token : Option String

pub data SendError : Type 0 where
  http cbor invalid_url : String → SendError

abbrev pub error_text : SendError → String
error_text (http e) = text_append "HTTP error: " e
error_text (cbor e) = text_append "CBOR serialization error: " e
error_text (invalid_url e) = text_append "Invalid URL: " e

pub record Config : Type 0 where
  pub buffer_size : ℕ
  pub max_batch_size : ℕ
  pub push_interval : ℕ
  pub max_retries : ℕ

pub record ChangesetSender : Type 0 where
  pub config : Config
  pub buffer : List Changeset
  pub buffer_size : ℕ
  pub last_flush : ℕ
  pub recovery : Option FailedBatchRecovery

-- What the clocks, the attestation client, the sequencer in each attempt and the recovery database
-- answer in a step. `token` is none where no attestation client is configured.
pub record Env : Type 0 where
  pub instant : ℕ
  pub now : ℕ
  pub batch_id : String
  pub token : Option (Result String String)
  pub send_batch : ChangesetBatchRequest → ℕ → Result (Unit {0}) SendError
  pub storage : Changeset → Option String

pub record World : Type 0 where
  pub sender : ChangesetSender
  pub accepted : List ChangesetData

abbrev pub seconds_or_zero : Option ℕ → ℕ
seconds_or_zero none = 0
seconds_or_zero (some nanos) = nanos / nanos_per_sec

abbrev pub changeset_data : Changeset → ChangesetData
changeset_data c = record {
  payload = c.payload;
  sequence = c.sequence;
  timestamp = seconds_or_zero c.timestamp;
}

abbrev pub token_of : Option (Result String String) → Option String
token_of none = none
token_of (some (ok token)) = some token
token_of (some (err e)) = none

abbrev pub should_flush : Env → ChangesetSender → Bool
should_flush env s =
    leb s.config.buffer_size (length s.buffer)
    || leb s.config.max_batch_size s.buffer_size
    || leb s.config.push_interval (env.instant - s.last_flush)

abbrev pub request : Env → List Changeset → ChangesetBatchRequest
request env cs = record {
  batch_id = env.batch_id;
  changesets = map changeset_data cs;
  attestation_token = token_of env.token;
}

-- A changeset that cannot be saved is only logged.
unfoldable pub save_all : Env → List Changeset → Table → Table
unfolding save_failed
save_all env [] table = table
save_all env (c ∷ cs) table =
    save_all env cs (save_failed (env.storage c) env.now c "Max retries exceeded" table).0

abbrev pub saved : Env → List Changeset → Option FailedBatchRecovery → Option FailedBatchRecovery
saved env cs none = none
saved env cs (some r) = some (record r { failed_changesets = save_all env cs r.failed_changesets })

-- The buffer is emptied before the batch is sent; the size of the buffer and the time of the last
-- flush are reset only when the batch arrives. None is a panic.
abbrev pub after_send : Env → World → Retried SendError → Option World
after_send env w done = some (record {
  sender = record w.sender { buffer = []; buffer_size = 0; last_flush = env.instant };
  accepted = w.accepted ++ (request env w.sender.buffer).changesets;
})
after_send env w (gave_up e) = some (record w {
  sender = record w.sender { buffer = []; recovery = saved env w.sender.buffer w.sender.recovery };
})
after_send env w unreachable = none

abbrev pub flush_nonempty : Env → World → Option World
flush_nonempty env w =
    after_send env w (
      retry_with_backoff (env.send_batch (request env w.sender.buffer)) w.sender.config.max_retries)

unfoldable pub flush : Env → World → Option World
unfolding retry_with_backoff save_all
flush env w = elim w.sender.buffer [ [] ↦ some w | c ∷ cs ↦ flush_nonempty env w ]

abbrev pub push : Changeset → World → World
push c w = record w {
  sender = record w.sender {
    buffer = w.sender.buffer ++ c ∷ [];
    buffer_size = w.sender.buffer_size + length c.payload;
  };
}

abbrev pub push_all : List Changeset → World → World
push_all [] w = w
push_all (c ∷ cs) w = push_all cs (push c w)

unfoldable pub on_changeset : Env → Changeset → World → Option World
unfolding flush
on_changeset env c w =
    let w' = push c w in if should_flush env w'.sender then flush env w' else some w'

-- What the two channels give: a changeset, the end of the changesets, or the shutdown with the
-- changesets that are still in the channel.
pub data Event : Type 0 where
  received : Env → Changeset → Event
  closed : Event
  shutdown : Env → List Changeset → Event

abbrev pub continue_with : Option World → (World → Option World) → Option World
continue_with none f = none
continue_with (some w) f = f w

-- The loop of `run`, from the events that come.
unfoldable pub run : List Event → World → Option World
unfolding on_changeset
run [] w = some w
run (received env c ∷ events) w = continue_with (on_changeset env c w) (run events)
run (closed ∷ events) w = some w
run (shutdown env cs ∷ events) w = flush env (push_all cs w)

-- The answers of the database before the retries, and those for each row.
pub record RetryEnv : Type 0 where
  pub now : ℕ
  pub cleanup_changesets : Option String
  pub cleanup_snapshots : Option String
  pub load : Option String
  pub row : ℕ → Env

-- One saved changeset: what arrives leaves the table, else its retries are counted. A failure to
-- change the table is only logged.
abbrev pub after_retry :
    Env
    → ℕ × Changeset
    → Table × List ChangesetData
    → Retried SendError
    → Option (Table × List ChangesetData)
after_retry env (id, c) (table, accepted) done =
    some ((remove (env.storage c) id table).0, accepted ++ changeset_data c ∷ [])
after_retry env (id, c) (table, accepted) (gave_up e) =
    some ((increment_retry (env.storage c) id (error_text e) table).0, accepted)
after_retry env (id, c) (table, accepted) unreachable = none

unfoldable pub retry_each :
    (ℕ → Env)
    → ℕ
    → List (ℕ × Changeset)
    → Table × List ChangesetData
    → Option (Table × List ChangesetData)
unfolding retry_with_backoff remove increment_retry
retry_each env max_retries [] s = some s
retry_each env max_retries ((id, c) ∷ rows) s =
    elim (after_retry (env id) (id, c) s
      (retry_with_backoff ((env id).send_batch (request (env id) (c ∷ []))) max_retries)) [
        | none ↦ none
        | some s' ↦ retry_each env max_retries rows s'
      ]

abbrev pub with_retried :
    World → FailedBatchRecovery → Option (Table × List ChangesetData) → Option World
with_retried w r none = none
with_retried w r (some (table, accepted)) = some (record {
  sender = record w.sender { recovery = some (record r { failed_changesets = table }) };
  accepted = accepted;
})

-- Changesets that cannot be loaded are left, after the old ones are cleaned up.
abbrev pub retry_loaded :
    RetryEnv
    → World
    → FailedBatchRecovery
    → Result (List (ℕ × Changeset)) RecoveryError
    → Option World
retry_loaded env w r (ok rows) =
    with_retried w r
      (retry_each env.row w.sender.config.max_retries rows (r.failed_changesets, w.accepted))
retry_loaded env w r (err e) = some (record w { sender = record w.sender { recovery = some r } })

abbrev pub retry_in : RetryEnv → World → Option FailedBatchRecovery → Option World
retry_in env w none = some w
retry_in env w (some r) =
    let cleaned =
      (cleanup_old_failures env.cleanup_changesets env.cleanup_snapshots env.now 7 r).0 in
    retry_loaded env w cleaned (get_failed env.load cleaned.failed_changesets)

unfoldable pub retry_failed_changesets : RetryEnv → World → Option World
unfolding retry_each get_failed cleanup_old_failures
retry_failed_changesets env w = retry_in env w w.sender.recovery

-- The whole of `run`: the retries, then the loop.
unfoldable pub start : RetryEnv → List Event → World → Option World
unfolding retry_failed_changesets run
start env events w = continue_with (retry_failed_changesets env w) (run events)
