-- ===== src/Validator/SyncBatched.antt =====
-- crates/synddb-validator/src/validator.rs: `sync_to_head_batched`.
pub mod Visits
use synddb.Prelude.{
  ℕ, zero, suc, ◌+◌, Bool, String, Option, none, some, List, length, Result, ok, err, if◌then◌else◌,
}
use synddb.Shared.BatchInfo.{BatchInfo}
use synddb.Shared.Cbor.Crypto.{Crypto}
use synddb.Shared.Message.{Codec, SignedBatch}
use synddb.Validator.Error.{ValidatorError, other}
use synddb.Validator.Sqlite.{Sqlite}
use synddb.Validator.Store.{next_sequence}
use synddb.Validator.BatchIndex.{
  BatchIndex, BatchIterator, starting_at, current_batch, is_exhausted, advance_to_next_batch,
}
use synddb.Validator.Sync.{Validator, ValidatorConfig, Env, sync_to_head, sync_batch, ignored}

-- What the fetcher answers on batches.
pub record BatchEnv : Type 0 where
  pub supports_batches : Bool
  pub list_batches : Result (List BatchInfo) String
  pub get_batch_by_path : String → Result (Option SignedBatch) String

module _ {Conn : Type 0} (sqlite : Sqlite Conn) (codec : Codec) (crypto : Crypto)
    (config : ValidatorConfig Conn) where
  abbrev pub synced_then :
      (ℕ → Validator Conn → Validator Conn × Result ℕ ValidatorError)
      → ℕ
      → Validator Conn × Result ℕ ValidatorError
      → Validator Conn × Result ℕ ValidatorError
  synced_then later total (v, ok n) = later (total + n) v
  synced_then later total (v, err e) = (v, err e)

  -- One batch, given the later ones. A batch that is not found is passed over, and the callback
  -- ignores withdrawals.
  abbrev pub one_batch :
      Env
      → (ℕ → Validator Conn → Validator Conn × Result ℕ ValidatorError)
      → ℕ
      → Validator Conn
      → Result (Option SignedBatch) String
      → Validator Conn × Result ℕ ValidatorError
  one_batch env later total v (err e) = (v, err (other e))
  one_batch env later total v (ok none) = later total v
  one_batch env later total v (ok (some batch)) =
      synced_then later total
        (ignored sqlite codec crypto config v (sync_batch sqlite codec crypto config env batch v))

  -- The loop over the iterator. Each round passes one batch, so the length of the index is fuel
  -- enough.
  unfoldable pub sync_batches :
      ℕ
      → BatchEnv
      → Env
      → BatchIndex
      → BatchIterator
      → ℕ
      → Validator Conn
      → Validator Conn × Result ℕ ValidatorError
  unfolding current_batch is_exhausted advance_to_next_batch sync_batch
  sync_batches zero fetcher env index it total v = (v, ok total)
  sync_batches (suc fuel) fetcher env index it total v =
      if is_exhausted it index then (v, ok total) else elim (current_batch it index) [
        | none ↦ (v, ok total)
        | some info ↦
            one_batch env (sync_batches fuel fetcher env index (advance_to_next_batch it)) total v
              (fetcher.get_batch_by_path info.path)
      ]

  abbrev pub by_listing :
      BatchEnv
      → Env
      → Validator Conn
      → Result (List BatchInfo) String
      → Validator Conn × Result ℕ ValidatorError
  by_listing fetcher env v (err e) = (v, err (other e))
  by_listing fetcher env v (ok listed) =
      let index : BatchIndex = record { batches = listed } in
      sync_batches (length listed) fetcher env index (starting_at index (next_sequence v.state)) 0 v

  -- The fuel is that of the one-by-one sync.
  unfoldable pub sync_to_head_batched :
      ℕ → BatchEnv → Env → Validator Conn → Validator Conn × Result ℕ ValidatorError
  unfolding sync_batches starting_at sync_to_head
  sync_to_head_batched fuel fetcher env v =
      if fetcher.supports_batches
      then by_listing fetcher env v fetcher.list_batches
      else (let (v', n) = sync_to_head sqlite codec crypto config fuel env v in (v', ok n))
