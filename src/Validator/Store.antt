-- ===== src/Validator/Store.antt =====
-- crates/synddb-validator/src/state/store.rs: the progress of the validator. The row of
-- `last_sequence` reads as `none` where its text is "-1".
use synddb.Prelude.{
  ℕ, ◌+◌, ◌%◌, Bool, Option, none, some, List, [], ◌∷◌, ◌++◌, length, ltb, u64_mod,
}

pub record StateStore : Type 0 where
  pub last_sequence : Option ℕ
  pub last_sync_time : ℕ
  -- start, end and time of detection
  pub gaps : List (ℕ × ℕ × ℕ)

abbrev pub initial : StateStore
initial = record { last_sequence = none; last_sync_time = 0; gaps = [] }

abbrev pub next_sequence : StateStore → ℕ
next_sequence s = elim s.last_sequence [ none ↦ 0 | some seq ↦ (seq + 1) % u64_mod ]

abbrev pub set_last_sequence : ℕ → StateStore → StateStore
set_last_sequence sequence s = record s { last_sequence = some sequence }

abbrev pub set_last_sync_time : ℕ → StateStore → StateStore
set_last_sync_time timestamp s = record s { last_sync_time = timestamp }

abbrev pub record_sync : ℕ → ℕ → StateStore → StateStore
record_sync now sequence s = set_last_sync_time now (set_last_sequence sequence s)

abbrev pub record_gap : ℕ → ℕ → ℕ → StateStore → StateStore
record_gap now gap_start gap_end s = record s { gaps = s.gaps ++ (gap_start, gap_end, now) ∷ [] }

abbrev pub has_gaps : StateStore → Bool
has_gaps s = ltb 0 (length s.gaps)
