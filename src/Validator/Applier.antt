-- ===== src/Validator/Applier.antt =====
-- crates/synddb-validator/src/apply/applier.rs: messages applied to the replicated database.
-- The order in which the tables of a changeset are reported is that of their first change; in the
-- code it is that of a hash map.
pub mod Batches
pub mod Laws
use synddb.Prelude.{
  ℕ, ◌+◌, Bool, true, false, String, str_eq, Option, none, some, List, [], ◌∷◌, ◌==◌, if◌then◌else◌,
  Result, ok, err, ◌>>=◌, ◌>>◌,
}
use synddb.Shared.Bytes.{Bytes}
use synddb.Shared.Message.{SignedMessage, changeset, withdrawal, snapshot}
use synddb.Validator.Error.{
  ValidatorError, decompression_error, parse_error, database_error, changeset_apply_error, other,
  format, show, join,
}
use synddb.Validator.Sqlite.{
  Sqlite, ConflictType, ConflictAction, sqlite_changeset_conflict, other_conflict,
  sqlite_changeset_omit, sqlite_changeset_abort, WithdrawalRequest,
}
use synddb.Validator.Rules.{ValidationRule, validate_all}

abbrev pub map_err {ℓ} : {A E F : Type ℓ} → (E → F) → Result A E → Result A F
map_err f (ok a) = ok a
map_err f (err e) = err (f e)

-- An inserted row that exists already is skipped; every other conflict aborts.
abbrev pub on_conflict : ConflictType → ConflictAction
on_conflict sqlite_changeset_conflict = sqlite_changeset_omit
on_conflict other_conflict = sqlite_changeset_abort

-- `table_columns.insert`
abbrev insert : String → ℕ → List (String × ℕ) → List (String × ℕ)
insert table cols [] = (table, cols) ∷ []
insert table cols ((t, n) ∷ rest) =
    let rest' = insert table cols rest in
    if str_eq t table then (t, cols) ∷ rest else (t, n) ∷ rest'

abbrev pub table_columns : List (String × ℕ) → List (String × ℕ) → List (String × ℕ)
table_columns seen [] = seen
table_columns seen ((table, cols) ∷ changes) = table_columns (insert table cols seen) changes

abbrev required : String
required = ". A snapshot is required to sync schema first."

-- A transaction: what the database holds without it, and what is seen in it.
pub record Transaction (Conn : Type 0) : Type 0 where
  pub stored : Conn
  pub content : Conn

module _ {Conn : Type 0} (sqlite : Sqlite Conn) where
  open sqlite use {
    changes, column_count, apply_strm, begin, commit, restore_snapshot, decompress, read_changesets,
    read_snapshot, read_withdrawal,
  }

  abbrev pub is_missing : Option ℕ → Bool
  is_missing none = true
  is_missing (some n) = n == 0

  abbrev pub missing_tables : Conn → List (String × ℕ) → List String
  missing_tables conn [] = []
  missing_tables conn ((table, cols) ∷ tables) =
      let rest = missing_tables conn tables in
      if is_missing (column_count conn table) then table ∷ rest else rest

  abbrev pub mismatch : String → ℕ → Option ℕ → List String → List String
  mismatch table cols none rest = rest
  mismatch table cols (some n) rest =
      if n == 0
      then rest
      else if n == cols
      then rest
      else format
          (table ∷ " (changeset has " ∷ show cols ∷ " columns, target has " ∷ show n ∷ ")" ∷ [])
        ∷ rest

  abbrev pub column_mismatches : Conn → List (String × ℕ) → List String
  column_mismatches conn [] = []
  column_mismatches conn ((table, cols) ∷ tables) =
      let rest = column_mismatches conn tables in mismatch table cols (column_count conn table) rest

  -- The two reports of schema validation.
  abbrev pub report : List String → List String → Result (Unit {0}) String
  report (t ∷ ts) mismatches = err (
      format
        ("Changeset references tables that don't exist: " ∷ join ", " (t ∷ ts) ∷ required ∷ []))
  report [] (m ∷ ms) = err (
      format ("Schema mismatch - column counts don't match: " ∷ join "; " (m ∷ ms) ∷ required ∷ []))
  report [] [] = ok tt

  unfoldable pub validate_changeset_schema : Conn → Bytes → Result (Unit {0}) String
  validate_changeset_schema conn raw = do
    found ← changes raw
    let tables = table_columns [] found
    report (missing_tables conn tables) (column_mismatches conn tables)

  unfoldable pub apply_single_changeset : Conn → Bytes → Result Conn String
  unfolding validate_changeset_schema
  apply_single_changeset conn raw = validate_changeset_schema conn raw >>= λ valid.
      map_err (λ e. format ("Failed to apply changeset: " ∷ e ∷ []))
        (apply_strm on_conflict conn raw)

  abbrev pub is_empty : Bytes → Bool
  is_empty [] = true
  is_empty (b ∷ bs) = false

  -- The loop over the changesets of a batch; empty ones are skipped.
  unfoldable pub apply_each : ℕ → String → ℕ → Conn → List Bytes → Result Conn ValidatorError
  unfolding apply_single_changeset
  apply_each sequence batch_id i conn [] = ok conn
  apply_each sequence batch_id i conn (c ∷ cs) =
      (if is_empty c
        then ok conn
        else map_err
            (λ e.
              changeset_apply_error sequence
                (format ("Changeset " ∷ show i ∷ " in batch " ∷ batch_id ∷ ": " ∷ e ∷ [])))
            (apply_single_changeset conn c))
      >>= λ conn'. apply_each sequence batch_id (i + 1) conn' cs

  abbrev failed_to : String → String → SignedMessage → String → String
  failed_to action type_name message e = format (
      "Failed to "
      ∷ action
      ∷ " "
      ∷ type_name
      ∷ " at sequence "
      ∷ show message.sequence
      ∷ ": "
      ∷ e
      ∷ [])

  abbrev pub decompress_and_parse :
      {A : Type 0} → (Bytes → Result A String) → SignedMessage → String → Result A ValidatorError
  decompress_and_parse read message type_name = do
    raw ←
        map_err (λ e. decompression_error (failed_to "decompress" type_name message e))
          (decompress message.payload)
    map_err (λ e. parse_error (failed_to "parse" type_name message e)) (read raw)

  abbrev pub run_rules :
      Option (List (ValidationRule Conn)) → Conn → ℕ → Result (Unit {0}) ValidatorError
  run_rules none conn sequence = ok tt
  run_rules (some rules) conn sequence = validate_all rules conn sequence

  abbrev pub begin_transaction : Conn → Result (Transaction Conn) ValidatorError
  begin_transaction conn =
      map_err (λ e. database_error (format ("Failed to begin transaction: " ∷ e ∷ []))) (begin conn)
      >>= λ begun. ok (record { stored = conn; content = conn })

  abbrev pub after_commit :
      Transaction Conn
      → Result (Unit {0}) String
      → Transaction Conn × Result (Unit {0}) ValidatorError
  after_commit tx (err e) =
      (tx, err (database_error (format ("Failed to commit transaction: " ∷ e ∷ []))))
  after_commit tx (ok done) = (record tx { stored = tx.content }, ok tt)

  abbrev pub commit_transaction :
      Transaction Conn → Transaction Conn × Result (Unit {0}) ValidatorError
  commit_transaction tx = after_commit tx (commit tx.content)

  abbrev pub after_rules :
      Transaction Conn
      → Result (Unit {0}) ValidatorError
      → Transaction Conn × Result (Unit {0}) ValidatorError
  after_rules tx (err e) = (tx, err e)
  after_rules tx (ok valid) = commit_transaction tx

  -- The rest of the transaction, after the changesets.
  abbrev pub checked :
      Option (List (ValidationRule Conn))
      → ℕ
      → Transaction Conn
      → Result Conn ValidatorError
      → Transaction Conn × Result (Unit {0}) ValidatorError
  checked rules sequence tx (err e) = (tx, err e)
  checked rules sequence tx (ok conn) =
      after_rules (record tx { content = conn }) (run_rules rules conn sequence)

  -- A transaction that is dropped is rolled back: what is stored stays.
  abbrev pub dropped :
      Transaction Conn × Result (Unit {0}) ValidatorError → Conn × Result (Unit {0}) ValidatorError
  dropped (tx, r) = (tx.stored, r)

  abbrev pub in_transaction :
      Option (List (ValidationRule Conn))
      → SignedMessage
      → Conn
      → String × List Bytes
      → Result (Transaction Conn) ValidatorError
      → Conn × Result (Unit {0}) ValidatorError
  in_transaction rules message conn batch (err e) = (conn, err e)
  in_transaction rules message conn batch (ok tx) =
      dropped (
        checked rules message.sequence tx
          (apply_each message.sequence batch.0 0 tx.content batch.1))

  unfoldable pub apply_changeset_message :
      Option (List (ValidationRule Conn))
      → SignedMessage
      → Conn
      → Conn × Result (Unit {0}) ValidatorError
  unfolding apply_each validate_all
  apply_changeset_message rules message conn =
      elim (decompress_and_parse read_changesets message "changeset batch") [
        | err e ↦ (conn, err e)
        | ok batch ↦ in_transaction rules message conn batch (begin_transaction conn)
      ]

  abbrev restored : Conn × Result (Unit {0}) String → Conn × Result (Unit {0}) ValidatorError
  restored (conn, r) = (conn, map_err other r)

  unfoldable pub apply_snapshot_message :
      SignedMessage → Conn → Conn × Result (Unit {0}) ValidatorError
  apply_snapshot_message message conn =
      elim (decompress_and_parse read_snapshot message "snapshot") [
        | err e ↦ (conn, err e)
        | ok raw ↦ restored (restore_snapshot conn raw)
      ]

  unfoldable pub apply_message_with_rules :
      Option (List (ValidationRule Conn))
      → SignedMessage
      → Conn
      → Conn × Result (Unit {0}) ValidatorError
  unfolding apply_changeset_message apply_snapshot_message
  apply_message_with_rules rules message conn = elim message.message_type [
    | changeset ↦ apply_changeset_message rules message conn
    | snapshot ↦ apply_snapshot_message message conn
    | withdrawal ↦ (conn, ok tt)
  ]

  unfoldable pub extract_withdrawal :
      SignedMessage → Result (Option WithdrawalRequest) ValidatorError
  extract_withdrawal message = elim message.message_type [
    | withdrawal ↦
        map_err other (decompress message.payload >>= λ raw. read_withdrawal raw) >>= λ request.
        ok (some request)
    | changeset ↦ ok none
    | snapshot ↦ ok none
  ]
