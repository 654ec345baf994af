-- ===== src/Client/Recovery.antt =====
-- crates/synddb-client/src/recovery.rs: the two tables of the recovery database, and the records of
-- session.rs that they hold. A Changeset and a Snapshot have the same fields.
use synddb.Prelude.{
  ℕ, ◌+◌, ◌-◌, ◌*◌, ◌/◌, ◌%◌, not, String, Option, none, some, List, [], ◌∷◌, ◌++◌, ltb, leb, ◌==◌,
  length, map, filter, u64_mod, if◌then◌else◌, Result, ok, err,
}
use synddb.Shared.Bytes.{Bytes}

-- The time is in nanoseconds since the epoch, or before the epoch.
pub record Changeset : Type 0 where
  pub payload : Bytes
  pub sequence : ℕ
  pub timestamp : Option ℕ

pub data RecoveryError : Type 0 where
  before_epoch : RecoveryError
  database : String → RecoveryError

pub record FailedRow : Type 0 where
  pub id : ℕ
  pub sequence : ℕ
  pub payload : Bytes
  pub timestamp : ℕ
  pub failed_at : ℕ
  pub retry_count : ℕ
  pub last_error : String

-- The rows in the order of their identifiers, and the last identifier given out.
pub record Table : Type 0 where
  pub rows : List FailedRow
  pub last_id : ℕ

pub record FailedBatchRecovery : Type 0 where
  pub failed_changesets : Table
  pub failed_snapshots : Table

abbrev pub nanos_per_sec : ℕ
nanos_per_sec = 1_000_000_000

abbrev pub since_epoch : Option ℕ → Result ℕ RecoveryError
since_epoch none = err before_epoch
since_epoch (some nanos) = ok (nanos / nanos_per_sec)

-- The row that `INSERT` adds, with the defaults of its columns.
abbrev pub inserted : ℕ → Changeset → ℕ → String → Table → Table
inserted now c secs error table = record {
  rows =
      table.rows
      ++ record {
        id = table.last_id + 1;
        sequence = c.sequence;
        payload = c.payload;
        timestamp = secs;
        failed_at = now;
        retry_count = 0;
        last_error = error;
      }
        ∷ [];
  last_id = table.last_id + 1;
}

-- A statement either fails, and changes nothing, or does its change.
abbrev pub executed :
    Option String
    → Table
    → Table × Result (Unit {0}) RecoveryError
    → Table × Result (Unit {0}) RecoveryError
executed none old new = new
executed (some e) old new = (old, err (database e))

unfoldable pub save_failed :
    Option String → ℕ → Changeset → String → Table → Table × Result (Unit {0}) RecoveryError
save_failed failure now c error table = elim (since_epoch c.timestamp) [
  | err e ↦ (table, err e)
  | ok secs ↦ executed failure table (inserted now c secs error table, ok tt)
]

-- The order of the column is that of a signed number.
abbrev pub signed_order : ℕ → ℕ
signed_order n = (n + u64_mod / 2) % u64_mod

unfoldable pub insert_by_sequence : FailedRow → List FailedRow → List FailedRow
insert_by_sequence r [] = r ∷ []
insert_by_sequence r (x ∷ xs) =
    let rest = insert_by_sequence r xs in
    if leb (signed_order r.sequence) (signed_order x.sequence) then r ∷ x ∷ xs else x ∷ rest

abbrev pub ordered : List FailedRow → List FailedRow
ordered [] = []
ordered (r ∷ rs) = insert_by_sequence r (ordered rs)

abbrev pub read : FailedRow → ℕ × Changeset
read r = (
  r.id,
  record {
    payload = r.payload;
    sequence = r.sequence;
    timestamp = some (r.timestamp * nanos_per_sec);
  },
)

unfoldable pub get_failed : Option String → Table → Result (List (ℕ × Changeset)) RecoveryError
unfolding insert_by_sequence
get_failed none table = ok (map read (ordered table.rows))
get_failed (some e) table = err (database e)

unfoldable pub remove : Option String → ℕ → Table → Table × Result (Unit {0}) RecoveryError
remove failure id table =
    executed failure table
      (record table { rows = filter (λ r. not (r.id == id)) table.rows }, ok tt)

abbrev pub retried : ℕ → String → FailedRow → FailedRow
retried id error r =
    if r.id == id then record r { retry_count = r.retry_count + 1; last_error = error } else r

unfoldable pub increment_retry :
    Option String → ℕ → String → Table → Table × Result (Unit {0}) RecoveryError
increment_retry failure id error table =
    executed failure table (record table { rows = map (retried id error) table.rows }, ok tt)

unfoldable pub get_failed_counts :
    Option String → FailedBatchRecovery → Result (ℕ × ℕ) RecoveryError
get_failed_counts none r = ok (length r.failed_changesets.rows, length r.failed_snapshots.rows)
get_failed_counts (some e) r = err (database e)

abbrev pub seconds_of_days : ℕ → ℕ
seconds_of_days days = days * 24 * 60 * 60

abbrev pub since : ℕ → Table → Table
since cutoff table = record table { rows = filter (λ r. not (ltb r.failed_at cutoff)) table.rows }

-- The rows of changesets are deleted before those of snapshots, which can fail on its own. A clock
-- less than the days past the epoch is an error.
unfoldable pub cleanup_old_failures :
    Option String
    → Option String
    → ℕ
    → ℕ
    → FailedBatchRecovery
    → FailedBatchRecovery × Result (ℕ × ℕ) RecoveryError
cleanup_old_failures changesets snapshots now days r =
    let cutoff = now - seconds_of_days days in
    let c = since cutoff r.failed_changesets in
    let s = since cutoff r.failed_snapshots in
    if ltb now (seconds_of_days days) then (r, err before_epoch) else elim changesets [
      | some e ↦ (r, err (database e))
      | none ↦ elim snapshots [
        | some e ↦ (record r { failed_changesets = c }, err (database e))
        | none ↦ (
          record { failed_changesets = c; failed_snapshots = s },
          ok (
            length r.failed_changesets.rows - length c.rows,
            length r.failed_snapshots.rows - length s.rows,
          ),
        )
      ]
    ]
