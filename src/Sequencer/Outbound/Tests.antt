-- ===== src/Sequencer/Outbound/Tests.antt =====
-- The outbound monitor at a concrete log.
use synddb.Prelude.{ℕ, ◌≡◌, refl, Bool, true, false, List, [], ◌∷◌}
use synddb.Sequencer.Outbound.{
  tracked, get_status, track_message, OutboundMonitor, LogRow, message_log, track_rows, poll_once,
}

abbrev log_row : ℕ → Bool → LogRow
log_row id is_pending = record {
  id = id;
  message_type = "price_update";
  payload = "{}";
  is_pending = is_pending;
  is_readable = true;
}

abbrev log : List LogRow
log = log_row 4 true ∷ log_row 6 false ∷ log_row 7 true ∷ log_row 9 true ∷ []

abbrev monitor : OutboundMonitor
monitor = record {
  config = record { has_db_path = true; batch_size = 2 };
  tracker = tracked 1 4 "price_update" "{}" ∷ [];
  last_seen_id = 4;
}

polled_two : (poll_once 8 (message_log log) monitor).0.last_seen_id ≡ 9
unfolding poll_once track_rows track_message get_status
polled_two = refl

-- A row that does not convert keeps the rows behind it out of a batch of one, poll after poll.
stuck :
    (poll_once 8
      (message_log (record (log_row 7 true) { is_readable = false } ∷ log_row 9 true ∷ []))
      (record monitor { config = record { has_db_path = true; batch_size = 1 } })).0.last_seen_id
    ≡ 4
unfolding poll_once track_rows
stuck = refl
