-- ===== src/ChainMonitor/Events.antt =====
-- crates/synddb-chain-monitor/src/event_store.rs: the tables of processed events and of the last
-- block. The SQL casts of block numbers to i64 and back keep them.
use synddb.Prelude.{
  ℕ, ◌||◌, Bool, false, Option, none, some, List, [], ◌∷◌, ◌++◌, length, ◌==◌, if◌then◌else◌,
}

pub record ProcessedEvent : Type 0 where
  pub tx_hash : ℕ
  pub block_number : ℕ
  pub log_index : Option ℕ

pub record EventStore : Type 0 where
  pub processed_events : List ProcessedEvent
  pub last_block : Option ℕ

abbrev pub new : EventStore
new = record { processed_events = []; last_block = none }

unfoldable pub has_event : ℕ → List ProcessedEvent → Bool
has_event h [] = false
has_event h (e ∷ es) = e.tx_hash == h || has_event h es

unfoldable pub is_processed : ℕ → EventStore → Bool
unfolding has_event
is_processed tx_hash store = has_event tx_hash store.processed_events

-- `INSERT OR IGNORE`: the first row of a transaction stays.
unfoldable pub mark_processed : ℕ → ℕ → Option ℕ → EventStore → EventStore
unfolding is_processed
mark_processed tx_hash block_number log_index store =
    if is_processed tx_hash store then store else record store {
      processed_events =
          store.processed_events
          ++ record { tx_hash = tx_hash; block_number = block_number; log_index = log_index } ∷ [];
    }

abbrev pub get_last_processed_block : EventStore → Option ℕ
get_last_processed_block store = store.last_block

unfoldable pub set_last_processed_block : ℕ → EventStore → EventStore
set_last_processed_block block store = record store { last_block = some block }

abbrev pub count_processed_events : EventStore → ℕ
count_processed_events store = length store.processed_events
