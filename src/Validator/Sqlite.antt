-- ===== src/Validator/Sqlite.antt =====
-- What the validator uses of the rusqlite, zstd and ciborium crates: parameters of the model. A
-- value of `Conn` is the content of the replicated database.
use synddb.Prelude.{ℕ, String, Option, List, Result}
use synddb.Shared.Bytes.{Bytes}

-- The conflicts of the session extension that the code tells apart.
pub data ConflictType : Type 0 where
  sqlite_changeset_conflict other_conflict : ConflictType

pub data ConflictAction : Type 0 where
  sqlite_changeset_omit sqlite_changeset_abort : ConflictAction

pub record WithdrawalRequest : Type 0 where
  pub request_id : String
  pub recipient : String
  pub amount : String

pub record Sqlite (Conn : Type 0) : Type 0 where
  -- the table and the number of columns of each change of a changeset, in order
  pub changes : Bytes → Result (List (String × ℕ)) String
  -- the number of columns of a table by `pragma_table_info`, if the query succeeds
  pub column_count : Conn → String → Option ℕ
  -- `apply_strm` with a conflict handler; one that fails changes nothing
  pub apply_strm : (ConflictType → ConflictAction) → Conn → Bytes → Result Conn String
  -- `invert_strm`
  pub invert_strm : Bytes → Result Bytes String
  -- whether a transaction begins, and whether it commits
  pub begin : Conn → Result (Unit {0}) String
  pub commit : Conn → Result (Unit {0}) String
  -- `restore_snapshot`: the files and the backup
  pub restore_snapshot : Conn → Bytes → Conn × Result (Unit {0}) String
  -- the zstd decoder
  pub decompress : Bytes → Result Bytes String
  -- the CBOR readers of the three payloads: a batch id with its changesets, a snapshot, a withdrawal
  pub read_changesets : Bytes → Result (String × List Bytes) String
  pub read_snapshot : Bytes → Result Bytes String
  pub read_withdrawal : Bytes → Result WithdrawalRequest String
