-- ===== src/Sequencer/Outbound.antt =====
-- crates/synddb-sequencer/src/messages/outbound.rs: the messages that the application sends out, and
-- their status. The tracker's hash map is an association list; each operation takes the time it reads.
pub mod Laws
pub mod Tests
use synddb.Prelude.{
  ℕ, ◌+◌, ◌-◌, max, Bool, true, false, not, ◌&&◌, ◌||◌, String, Option, none, some, List, [], ◌∷◌,
  ◌++◌, ◌==◌, ltb, filter, take, length, if◌then◌else◌, Result, ok, err,
}

pub record OutboundMonitorConfig : Type 0 where
  pub has_db_path : Bool
  pub batch_size : ℕ

pub data OutboundStatus : Type 0 where
  pending queued submitting submitted confirmed failed : OutboundStatus

pub record TrackedOutboundMessage : Type 0 where
  pub id : ℕ
  pub message_type : String
  pub payload : String
  pub status : OutboundStatus
  pub tx_hash : Option String
  pub confirmations : Option ℕ
  pub error : Option String
  pub first_seen_at : ℕ
  pub updated_at : ℕ

-- The messages by id.
abbrev pub OutboundTracker : Type 0
OutboundTracker = List TrackedOutboundMessage

unfoldable pub get_status : OutboundTracker → ℕ → Option TrackedOutboundMessage
get_status [] id = none
get_status (m ∷ ms) id = let rest = get_status ms id in if m.id == id then some m else rest

abbrev pub tracked : ℕ → ℕ → String → String → TrackedOutboundMessage
tracked now id message_type payload = record {
  id = id;
  message_type = message_type;
  payload = payload;
  status = queued;
  tx_hash = none;
  confirmations = none;
  error = none;
  first_seen_at = now;
  updated_at = now;
}

abbrev pub is_some : Option TrackedOutboundMessage → Bool
is_some none = false
is_some (some m) = true

-- `entry(id).or_insert_with(..)`
unfoldable pub track_message : ℕ → ℕ → String → String → OutboundTracker → OutboundTracker
unfolding get_status
track_message now id message_type payload ms =
    if is_some (get_status ms id) then ms else ms ++ tracked now id message_type payload ∷ []

-- `if let Some(msg) = messages.get_mut(&id)`
unfoldable pub update :
    ℕ → (TrackedOutboundMessage → TrackedOutboundMessage) → OutboundTracker → OutboundTracker
update id f [] = []
update id f (m ∷ ms) = let rest = update id f ms in if m.id == id then f m ∷ ms else m ∷ rest

abbrev pub set_status : ℕ → OutboundStatus → TrackedOutboundMessage → TrackedOutboundMessage
set_status now status m = record m { status = status; updated_at = now }

unfoldable pub update_status : ℕ → ℕ → OutboundStatus → OutboundTracker → OutboundTracker
unfolding update
update_status now id status ms = update id (set_status now status) ms

unfoldable pub set_tx_hash : ℕ → ℕ → String → OutboundTracker → OutboundTracker
unfolding update
set_tx_hash now id tx_hash ms =
    update id (λ m. record m { tx_hash = some tx_hash; status = submitted; updated_at = now }) ms

unfoldable pub set_confirmations : ℕ → ℕ → ℕ → OutboundTracker → OutboundTracker
unfolding update
set_confirmations now id confirmations ms =
    update id (λ m. record m { confirmations = some confirmations; updated_at = now }) ms

unfoldable pub mark_confirmed : ℕ → ℕ → OutboundTracker → OutboundTracker
unfolding update_status
mark_confirmed now id ms = update_status now id confirmed ms

unfoldable pub mark_failed : ℕ → ℕ → String → OutboundTracker → OutboundTracker
unfolding update
mark_failed now id error ms =
    update id (λ m. record m { status = failed; error = some error; updated_at = now }) ms

abbrev pub is_terminal : OutboundStatus → Bool
is_terminal pending = false
is_terminal queued = false
is_terminal submitting = false
is_terminal submitted = false
is_terminal confirmed = true
is_terminal failed = true

abbrev pub retained : ℕ → TrackedOutboundMessage → Bool
retained cutoff m = not (is_terminal m.status) || ltb cutoff m.updated_at

unfoldable pub cleanup_old_messages : ℕ → ℕ → OutboundTracker → OutboundTracker
cleanup_old_messages now max_age_secs ms = filter (retained (now - max_age_secs)) ms

pub record OutboundStats : Type 0 where
  pub total : ℕ
  pub pending_count : ℕ
  pub queued_count : ℕ
  pub submitting_count : ℕ
  pub submitted_count : ℕ
  pub confirmed_count : ℕ
  pub failed_count : ℕ

abbrev pub no_stats : OutboundStats
no_stats = record {
  total = 0;
  pending_count = 0;
  queued_count = 0;
  submitting_count = 0;
  submitted_count = 0;
  confirmed_count = 0;
  failed_count = 0;
}

abbrev pub count_status : OutboundStatus → OutboundStats → OutboundStats
count_status pending s = record s { pending_count = s.pending_count + 1 }
count_status queued s = record s { queued_count = s.queued_count + 1 }
count_status submitting s = record s { submitting_count = s.submitting_count + 1 }
count_status submitted s = record s { submitted_count = s.submitted_count + 1 }
count_status confirmed s = record s { confirmed_count = s.confirmed_count + 1 }
count_status failed s = record s { failed_count = s.failed_count + 1 }

unfoldable pub count_from : OutboundStats → OutboundTracker → OutboundStats
count_from s [] = s
count_from s (m ∷ ms) = count_from (count_status m.status (record s { total = s.total + 1 })) ms

unfoldable pub stats : OutboundTracker → OutboundStats
unfolding count_from
stats ms = count_from no_stats ms

pub record OutboundMonitor : Type 0 where
  pub config : OutboundMonitorConfig
  pub tracker : OutboundTracker
  pub last_seen_id : ℕ

-- A monitor starts with an empty tracker.
abbrev pub new : OutboundMonitorConfig → OutboundMonitor
new config = record { config = config; tracker = []; last_seen_id = 0 }

-- A row of the application's `message_log`.
pub record LogRow : Type 0 where
  pub id : ℕ
  pub message_type : String
  pub payload : String
  pub is_pending : Bool
  -- whether its columns convert
  pub is_readable : Bool

-- The application's database: it cannot be read, has no table, or has the rows, in the order of ids.
pub data AppDatabase : Type 0 where
  unreadable : String → AppDatabase
  no_table : AppDatabase
  message_log : List LogRow → AppDatabase

-- `WHERE status = 'pending' AND id > ? ORDER BY id ASC LIMIT ?`, and `filter_map` after the limit: a
-- row whose columns do not convert takes its place in the limit and is dropped.
abbrev pub select : ℕ → ℕ → List LogRow → List LogRow
select last_seen_id batch_size rows =
    filter (λ r. r.is_readable)
      (take batch_size (filter (λ r. r.is_pending && ltb last_seen_id r.id) rows))

unfoldable pub track_rows : ℕ → List LogRow → OutboundMonitor → OutboundMonitor
unfolding track_message
track_rows now [] m = m
track_rows now (r ∷ rs) m = track_rows now rs (record m {
  tracker = track_message now r.id r.message_type r.payload m.tracker;
  last_seen_id = max m.last_seen_id r.id;
})

abbrev pub polled : ℕ → AppDatabase → OutboundMonitor → OutboundMonitor × Result ℕ String
polled now (unreadable e) m = (m, err e)
polled now no_table m = (m, ok 0)
polled now (message_log rows) m =
    let messages = select m.last_seen_id m.config.batch_size rows in
    (track_rows now messages m, ok (length messages))

unfoldable pub poll_once : ℕ → AppDatabase → OutboundMonitor → OutboundMonitor × Result ℕ String
unfolding track_rows
poll_once now db m = if m.config.has_db_path then polled now db m else (m, ok 0)

-- A tick of `run`: an error of the poll is only logged.
unfoldable pub tick : ℕ → AppDatabase → OutboundMonitor → OutboundMonitor
unfolding poll_once cleanup_old_messages
tick now db m =
    let m' = (poll_once now db m).0 in
    record m' { tracker = cleanup_old_messages now 3600 m'.tracker }
