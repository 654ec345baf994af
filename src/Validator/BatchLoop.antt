-- ===== src/Validator/BatchLoop.antt =====
-- crates/synddb-validator/src/validator.rs: `run_batched` in batch mode; otherwise it is
-- `run_with_callbacks`. The waits between rounds are not modelled.
pub mod Accounts
pub mod Tests
use synddb.Prelude.{
  ℕ, ◌+◌, ◌%◌, Bool, true, false, ◌||◌, String, Option, none, some, List, [], ◌∷◌, ◌++◌, ltb,
  if◌then◌else◌, Result, ok, err, u64_mod,
}
use synddb.Shared.BatchInfo.{BatchInfo}
use synddb.Shared.Cbor.Crypto.{Crypto}
use synddb.Shared.Message.{SignedMessage, SignedBatch, Codec, verify_batch_signature}
use synddb.Validator.Error.{ValidatorError, other, sequence_gap, signature_verification}
use synddb.Validator.Sqlite.{Sqlite, WithdrawalRequest}
use synddb.Validator.Applier.{extract_withdrawal}
use synddb.Validator.Store.{record_gap}
use synddb.Validator.BatchIndex.{
  BatchIndex, refresh, find_batch_containing, find_first_batch_starting_at_or_after,
}
use synddb.Validator.SyncBatched.{BatchEnv}
use synddb.Validator.Sync.{
  Validator, ValidatorConfig, Env, called, verify, apply_message_with_audit, then_recorded,
}

-- What a round reads: the validator's world, the batches, and whether the refresh of the index is due.
pub record Round : Type 0 where
  pub env : Env
  pub fetcher : BatchEnv
  pub refresh_due : Bool

pub record BatchLoopState (Conn : Type 0) : Type 0 where
  pub validator : Validator Conn
  pub index : BatchIndex
  pub next_sequence : ℕ
  pub caught_up : Bool

pub data Outcome (Conn : Type 0) : Type 0 where
  running : BatchLoopState Conn → Outcome Conn
  stopped : BatchLoopState Conn → Outcome Conn
  failed : BatchLoopState Conn → ValidatorError → Outcome Conn

-- A withdrawal that cannot be read is not reported, and is no error here.
abbrev pub noted :
    Result (Option WithdrawalRequest) ValidatorError
    → List WithdrawalRequest
    → List WithdrawalRequest
noted (ok w) calls = called w calls
noted (err e) calls = calls

module _ {Conn : Type 0} where
  abbrev pub refreshed_by :
      Result (List BatchInfo) String → BatchLoopState Conn → BatchLoopState Conn
  refreshed_by (err e) s = s
  refreshed_by (ok listed) s =
      let (index, new_batches) = refresh listed s.index in
      record s { index = index; caught_up = if ltb 0 new_batches then false else s.caught_up }

  abbrev pub refreshed : Round → BatchLoopState Conn → BatchLoopState Conn
  refreshed r s = if r.refresh_due || s.caught_up then refreshed_by r.fetcher.list_batches s else s

  abbrev pub reported : ℕ → Validator Conn → Validator Conn
  reported sequence v = record v { synced = v.synced ++ sequence ∷ [] }

module _ {Conn : Type 0} (sqlite : Sqlite Conn) (codec : Codec) (crypto : Crypto)
    (config : ValidatorConfig Conn) where
  -- One message that is not skipped.
  unfoldable pub handle_message :
      Env → SignedMessage → Validator Conn → Validator Conn × Result (Unit {0}) ValidatorError
  unfolding verify extract_withdrawal apply_message_with_audit
  handle_message env m v = elim (verify sqlite codec crypto config m) [
    | err e ↦ (v, err e)
    | ok valid ↦ then_recorded sqlite codec crypto config env m.sequence (
        apply_message_with_audit sqlite codec crypto config env m
          (record v { withdrawals = noted (extract_withdrawal sqlite m) v.withdrawals }))
  ]

  -- The loop over the messages of a batch; it answers the next sequence.
  unfoldable pub handle_messages :
      Env → List SignedMessage → ℕ → Validator Conn → Validator Conn × Result ℕ ValidatorError
  unfolding handle_message
  handle_messages env [] next v = (v, ok next)
  handle_messages env (m ∷ ms) next v =
      let skipped = handle_messages env ms next v in
      if ltb m.sequence next
      then skipped
      else (let (v', r) = handle_message env m v in
          elim r [
            | err e ↦ (v', err e)
            | ok done ↦ handle_messages env ms ((m.sequence + 1) % u64_mod) (reported m.sequence v')
          ])

  abbrev pub after_messages :
      BatchLoopState Conn → Validator Conn × Result ℕ ValidatorError → Outcome Conn
  after_messages s (v, ok next) = running (record s { validator = v; next_sequence = next })
  after_messages s (v, err e) = failed (record s { validator = v }) e

  abbrev pub verified_batch : Env → BatchLoopState Conn → SignedBatch → Outcome Conn
  verified_batch env s batch = elim (verify_batch_signature codec crypto batch) [
    | err e ↦ failed s signature_verification
    | ok valid ↦ after_messages s (handle_messages env batch.messages s.next_sequence s.validator)
  ]

  abbrev pub fetched : Env → BatchLoopState Conn → Result (Option SignedBatch) String → Outcome Conn
  fetched env s (ok (some batch)) = verified_batch env s batch
  fetched env s (ok none) = running s
  fetched env s (err e) = running s

  abbrev pub skip_gap : Env → BatchLoopState Conn → ℕ → Outcome Conn
  skip_gap env s gap_end =
      if config.gap_skip_on_failure
      then elim env.write_gap [
        | err e ↦ failed s (other e)
        | ok done ↦ running (record s {
          validator = record s.validator {
            state = record_gap env.now s.next_sequence gap_end s.validator.state;
          };
          next_sequence = gap_end;
        })
      ]
      else failed s (sequence_gap s.next_sequence gap_end)

  abbrev pub no_batch : Env → BatchLoopState Conn → Option BatchInfo → Outcome Conn
  no_batch env s (some next_batch) = skip_gap env s next_batch.start_sequence
  no_batch env s none = running (record s { caught_up = true })

  abbrev pub looked_up : Round → BatchLoopState Conn → Option BatchInfo → Outcome Conn
  looked_up r s (some info) = fetched r.env s (r.fetcher.get_batch_by_path info.path)
  looked_up r s none =
      no_batch r.env s (find_first_batch_starting_at_or_after s.index s.next_sequence)

  unfoldable pub iterate : Round → BatchLoopState Conn → Outcome Conn
  unfolding handle_messages refresh find_batch_containing find_first_batch_starting_at_or_after
  iterate r s =
      let s' = refreshed r s in
      if r.env.shutdown
      then stopped s
      else looked_up r s' (find_batch_containing s'.index s'.next_sequence)

  unfoldable pub run_batched : List Round → BatchLoopState Conn → Outcome Conn
  unfolding iterate
  run_batched [] s = running s
  run_batched (r ∷ rs) s = elim (iterate r s) [
    | running s' ↦ run_batched rs s'
    | stopped s' ↦ stopped s'
    | failed s' e ↦ failed s' e
  ]
