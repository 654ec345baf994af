-- ===== src/Validator/Audit/Tests.antt =====
-- The deferred changesets and their check at concrete rows.
use synddb.Prelude.{ℕ, not, ◌≡◌, Bool, true, false, none, [], ◌∷◌, ok, err}
use synddb.Validator.Sqlite.{Sqlite}
use synddb.Validator.Audit.{PendingChangeset, verify_changeset_chain}
use synddb.Validator.Audit.Chain.{Inverts, verify_changeset_chain-restores}

abbrev row : ℕ → PendingChangeset
row n = record { sequence = n; changeset = n ∷ [] }

-- A database of one bit, which every change flips.
abbrev flip : Sqlite Bool
flip = record {
  changes = λ raw. ok [];
  column_count = λ db table. none;
  apply_strm = λ handler db raw. ok (not db);
  invert_strm = λ raw. ok raw;
  begin = λ db. ok tt;
  commit = λ db. ok tt;
  restore_snapshot = λ db raw. (db, ok tt);
  decompress = λ raw. ok raw;
  read_changesets = λ raw. err "";
  read_snapshot = λ raw. err "";
  read_withdrawal = λ raw. err "";
}

flips : Inverts flip
flips c i true b e f = cc
flips c i false b e f = cc

verify_changeset_chain-restores_example :
    (verify_changeset_chain flip true (row 1 ∷ row 2 ∷ row 3 ∷ [])).0 ≡ true
verify_changeset_chain-restores_example =
    (verify_changeset_chain-restores flip true (row 1 ∷ row 2 ∷ row 3 ∷ []) flips).0
