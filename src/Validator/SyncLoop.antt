-- ===== src/Validator/SyncLoop.antt =====
-- crates/synddb-validator/src/validator.rs: `run_with_callbacks` and `detect_gap`. A round reads the
-- world through its own `Env`; the waits between rounds are not modelled.
pub mod Gap
pub mod Accounts
pub mod Tests
use synddb.Prelude.{
  ℕ, zero, suc, ◌+◌, ◌%◌, Bool, true, false, String, Option, none, some, List, [], ◌∷◌, ◌++◌, ltb,
  leb, if◌then◌else◌, Result, ok, err, u64_mod,
}
use synddb.Shared.Cbor.Crypto.{Crypto}
use synddb.Shared.Message.{SignedMessage, Codec}
use synddb.Validator.Error.{ValidatorError, sequence_gap}
use synddb.Validator.Sqlite.{Sqlite}
use synddb.Validator.Store.{record_gap}
use synddb.Validator.Sync.{Validator, ValidatorConfig, Env, sync_one_with_callback}

abbrev pub found_at : Result (Option SignedMessage) String → Bool
found_at (ok none) = false
found_at (ok (some m)) = true
found_at (err e) = false

-- The loop over `count` offsets.
unfoldable pub probe : Env → ℕ → ℕ → ℕ → Option ℕ
probe env expected offset zero = none
probe env expected offset (suc count) =
    let rest = probe env expected (offset + 1) count in
    let check_seq = (expected + offset) % u64_mod in
    if found_at (env.get check_seq) then some check_seq else rest

abbrev pub ahead : Result (Option ℕ) String → ℕ → Option ℕ
ahead (ok none) expected = none
ahead (ok (some latest)) expected =
    if ltb expected latest then some ((expected + 1) % u64_mod) else none
ahead (err e) expected = none

abbrev pub or_else : Option ℕ → Option ℕ → Option ℕ
or_else none other = other
or_else (some a) other = some a

-- No error leaves it.
unfoldable pub detect_gap : Env → ℕ → Option ℕ
unfolding probe
detect_gap env expected = or_else (probe env expected 1 10) (ahead env.get_latest_sequence expected)

pub record LoopState (Conn : Type 0) : Type 0 where
  pub validator : Validator Conn
  pub next_sequence : ℕ
  pub not_found_count : ℕ

pub data Outcome (Conn : Type 0) : Type 0 where
  running : LoopState Conn → Outcome Conn
  stopped : LoopState Conn → Outcome Conn
  failed : LoopState Conn → ValidatorError → Outcome Conn

abbrev u32_mod : ℕ
u32_mod = 4_294_967_296

module _ {Conn : Type 0} (sqlite : Sqlite Conn) (codec : Codec) (crypto : Crypto)
    (config : ValidatorConfig Conn) where
  -- A gap that cannot be written down is only logged.
  abbrev pub gap_recorded : Env → ℕ → ℕ → Validator Conn → Validator Conn
  gap_recorded env from to v = elim env.write_gap [
    | ok done ↦ record v { state = record_gap env.now from to v.state }
    | err e ↦ v
  ]

  abbrev pub on_gap : Env → ℕ → Option ℕ → LoopState Conn → Outcome Conn
  on_gap env next none s = running (record s { not_found_count = 0 })
  on_gap env next (some available) s =
      if config.gap_skip_on_failure
      then running (record {
        validator = gap_recorded env next available s.validator;
        next_sequence = available;
        not_found_count = 0;
      })
      else failed s (sequence_gap next available)

  abbrev pub on_none : Env → LoopState Conn → Outcome Conn
  on_none env s =
      if leb config.gap_retry_count s.not_found_count
      then on_gap env s.next_sequence (detect_gap env s.next_sequence) s
      else running s

  abbrev pub on_result :
      Env → LoopState Conn → Validator Conn × Result Bool ValidatorError → Outcome Conn
  on_result env s (v, ok true) = running (record {
    validator = record v { synced = v.synced ++ s.next_sequence ∷ [] };
    next_sequence = (s.next_sequence + 1) % u64_mod;
    not_found_count = 0;
  })
  on_result env s (v, ok false) =
      on_none env (record s { validator = v; not_found_count = (s.not_found_count + 1) % u32_mod })
  on_result env s (v, err e) = running (record s { validator = v })

  -- A round of the loop.
  unfoldable pub iterate : Env → LoopState Conn → Outcome Conn
  unfolding detect_gap sync_one_with_callback
  iterate env s =
      if env.shutdown
      then stopped s
      else on_result env s
          (sync_one_with_callback sqlite codec crypto config env s.next_sequence s.validator)

  -- The loop over the rounds' environments.
  unfoldable pub run_with_callbacks : List Env → LoopState Conn → Outcome Conn
  unfolding iterate
  run_with_callbacks [] s = running s
  run_with_callbacks (env ∷ envs) s = elim (iterate env s) [
    | running s' ↦ run_with_callbacks envs s'
    | stopped s' ↦ stopped s'
    | failed s' e ↦ failed s' e
  ]
