-- ===== src/Validator/Audit.antt =====
-- crates/synddb-validator/src/apply/audit.rs: changesets that could not be applied, and their check
-- against a later snapshot. The reason of a deferral is not modelled.
pub mod Store
pub mod Chain
pub mod Tests
use synddb.Prelude.{
  ℕ, String, Option, none, some, List, [], ◌∷◌, ◌==◌, ltb, leb, not, filter, map, get_elem?,
  get_last?, if◌then◌else◌, Result, ok, err,
}
use synddb.Shared.Bytes.{Bytes}
use synddb.Validator.Error.{format}
use synddb.Validator.Sqlite.{Sqlite, ConflictType, ConflictAction, sqlite_changeset_abort}

pub record PendingChangeset : Type 0 where
  pub sequence : ℕ
  pub changeset : Bytes

-- `INSERT OR REPLACE` by the primary key, in a table that is read in the order of the key.
unfoldable pub store : PendingChangeset → List PendingChangeset → List PendingChangeset
store p [] = p ∷ []
store p (q ∷ qs) =
    let rest = store p qs in
    if ltb p.sequence q.sequence
    then p ∷ q ∷ qs
    else if p.sequence == q.sequence
    then p ∷ qs
    else q ∷ rest

-- `WHERE sequence >= ? AND sequence <= ?`
unfoldable pub get_range : ℕ → ℕ → List PendingChangeset → List PendingChangeset
get_range start end rows =
    filter (λ p. leb p.sequence end) (filter (λ p. leb start p.sequence) rows)

unfoldable pub clear_up_to : ℕ → List PendingChangeset → List PendingChangeset
clear_up_to sequence rows = filter (λ p. not (leb p.sequence sequence)) rows

abbrev pub zip_bounds : Option PendingChangeset → Option PendingChangeset → Option (ℕ × ℕ)
zip_bounds none last = none
zip_bounds (some first) none = none
zip_bounds (some first) (some last) = some (first.sequence, last.sequence)

-- `MIN` and `MAX` are those of the first and the last row.
unfoldable pub sequence_range : List PendingChangeset → Option (ℕ × ℕ)
sequence_range rows = zip_bounds (get_elem? rows 0) (get_last? rows)

pub record AuditFailure : Type 0 where
  pub sequence : ℕ
  pub reason : String

pub record AuditResult : Type 0 where
  pub verified : List ℕ
  pub failed : List AuditFailure

-- `sort_by` with the sequences descending, which keeps the order of equal ones.
abbrev pub insert_desc : PendingChangeset → List PendingChangeset → List PendingChangeset
insert_desc p [] = p ∷ []
insert_desc p (q ∷ qs) =
    let rest = insert_desc p qs in if ltb p.sequence q.sequence then q ∷ rest else p ∷ q ∷ qs

abbrev pub sort_desc : List PendingChangeset → List PendingChangeset
sort_desc [] = []
sort_desc (p ∷ ps) = insert_desc p (sort_desc ps)

abbrev pub abort : ConflictType → ConflictAction
abort conflict = sqlite_changeset_abort

abbrev pub broken : PendingChangeset → AuditFailure
broken p = record { sequence = p.sequence; reason = "Chain broken by earlier failure" }

abbrev pub failures : String → String → PendingChangeset → List PendingChangeset → List AuditFailure
failures what e c rest =
    record { sequence = c.sequence; reason = format (what ∷ e ∷ []) } ∷ map broken rest

module _ {Conn : Type 0} (sqlite : Sqlite Conn) where
  open sqlite use {apply_strm, invert_strm}

  -- The walk back: the database, the changesets undone and the failures.
  unfoldable pub walk :
      Conn → List PendingChangeset → Conn × List PendingChangeset × List AuditFailure
  walk conn [] = (conn, [], [])
  walk conn (c ∷ rest) = elim (invert_strm c.changeset) [
    | err e ↦ (conn, [], failures "Failed to invert: Failed to invert: " e c rest)
    | ok inverted ↦ elim (apply_strm abort conn inverted) [
      | err e ↦ (conn, [], failures "Inverted changeset failed to apply: " e c rest)
      | ok conn' ↦ let (end, undone, failed) = walk conn' rest in (end, c ∷ undone, failed)
    ]
  ]

  abbrev pub or_same : Conn → Result Conn String → Conn
  or_same conn (ok conn') = conn'
  or_same conn (err e) = conn

  -- The replay, the earliest first. One that fails is passed over.
  unfoldable pub replay : Conn → List PendingChangeset → Conn
  replay conn [] = conn
  replay conn (c ∷ undone) =
      let conn' = replay conn undone in or_same conn' (apply_strm abort conn' c.changeset)

  -- The loop: back from the latest changeset, and forth again.
  unfoldable pub verify_changeset_chain : Conn → List PendingChangeset → Conn × AuditResult
  unfolding walk replay
  verify_changeset_chain conn pending =
      let (end, undone, failed) = walk conn (sort_desc pending) in
      (replay end undone, record { verified = map (λ c. c.sequence) undone; failed = failed })
