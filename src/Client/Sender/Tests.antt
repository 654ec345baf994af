-- ===== src/Client/Sender/Tests.antt =====
-- The sender at concrete changesets.
use synddb.Prelude.{ltb, if◌then◌else◌, ℕ, ◌≡◌, refl, Option, none, some, List, [], ◌∷◌, ok, err}
use synddb.Client.Retry.{retry_from, retry_with_backoff}
use synddb.Client.Recovery.{
  FailedBatchRecovery, Changeset, save_failed, insert_by_sequence, get_failed, remove,
  cleanup_old_failures,
}
use synddb.Client.Sender.{
  Env, World, ChangesetData, continue_with, http, changeset_data, save_all, flush, on_changeset,
  Event, received, closed, shutdown, run, RetryEnv, retry_each, retry_failed_changesets,
}

abbrev first : Changeset
first = record { payload = 1 ∷ 2 ∷ []; sequence = 7; timestamp = some 3_000_000_001 }

abbrev second : Changeset
second = record { payload = 3 ∷ []; sequence = 8; timestamp = some 4_000_000_002 }

-- The sequencer answers from the given attempt on.
abbrev answering : ℕ → Env
answering n = record {
  instant = 5;
  now = 1_000_000;
  batch_id = "batch";
  token = none;
  send_batch = λ batch attempt. if ltb attempt n then err (http "refused") else ok tt;
  storage = λ c. none;
}

abbrev empty : FailedBatchRecovery
empty = record {
  failed_changesets = record { rows = []; last_id = 0 };
  failed_snapshots = record { rows = []; last_id = 0 };
}

abbrev starting : ℕ → World
starting buffer_size = record {
  sender = record {
    config = record {
      buffer_size = buffer_size;
      max_batch_size = 1_000;
      push_interval = 10;
      max_retries = 3;
    };
    buffer = [];
    buffer_size = 0;
    last_flush = 0;
    recovery = some empty;
  };
  accepted = [];
}

abbrev events : List Event
events = received (answering 9) first ∷ shutdown (answering 2) (second ∷ []) ∷ []

abbrev accepted_of : Option World → Option (List ChangesetData)
accepted_of none = none
accepted_of (some w) = some w.accepted

abbrev buffer_of : Option World → Option (List Changeset)
buffer_of none = none
buffer_of (some w) = some w.sender.buffer

-- The first changeset is saved, the second arrives in the third attempt.
arrived : accepted_of (run events (starting 1)) ≡ some (changeset_data second ∷ [])
unfolding run on_changeset flush retry_with_backoff retry_from save_all save_failed
arrived = refl

-- The next start sends what was saved.
abbrev restart : RetryEnv
restart = record {
  now = 1_000_100;
  cleanup_changesets = none;
  cleanup_snapshots = none;
  load = none;
  row = λ id. answering 0;
}

retried :
    accepted_of (continue_with (run events (starting 1)) (retry_failed_changesets restart))
    ≡ some (changeset_data second ∷ changeset_data first ∷ [])
unfolding run on_changeset flush retry_with_backoff retry_from save_all save_failed
    retry_failed_changesets retry_each get_failed insert_by_sequence remove cleanup_old_failures
retried = refl

-- The end of the channel stops the loop with a changeset in the buffer.
stranded :
    buffer_of (run (received (answering 0) first ∷ closed ∷ []) (starting 2)) ≡ some (first ∷ [])
unfolding run on_changeset flush
stranded = refl

-- Without an attempt allowed, a flush panics.
panics :
    run (received (answering 0) first ∷ []) (record (starting 1) {
      sender = record (starting 1).sender {
        config = record (starting 1).sender.config { max_retries = 0 };
      };
    })
    ≡ none
unfolding run on_changeset flush retry_with_backoff retry_from
panics = refl
