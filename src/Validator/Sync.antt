-- ===== src/Validator/Sync.antt =====
-- crates/synddb-validator/src/validator.rs and sync/verifier.rs: fetching, checking and applying the
-- messages one by one. Reads of the two SQLite stores of the validator succeed; each of their writes
-- may fail. The calls of the two callbacks are kept in the state, in order.
pub mod Audited
pub mod One
pub mod Whole
pub mod Head
pub mod Tests
use Prim.Native.String.{len}
use synddb.Prelude.{
  ℕ, zero, suc, ◌+◌, ◌%◌, Bool, true, false, String, Option, none, some, List, [], ◌∷◌, ◌++◌, ◌==◌,
  ltb, filter, if◌then◌else◌, ◌||◌, ◌&&◌, Result, ok, err, ◌>>=◌, ◌>>◌, u64_mod,
}
use synddb.Shared.Bytes.{Bytes, bytes_eq}
use synddb.Shared.Cbor.Crypto.{Crypto}
use synddb.Shared.Message.{
  SignedMessage, MessageType, changeset, withdrawal, snapshot, Codec, strip_0x, verify_signature,
  SignedBatch, verify_batch_signature,
}
use synddb.Validator.Error.{
  ValidatorError, signature_verification, invalid_signature, signer_mismatch, sequence_gap, other,
  to_string, contains_text,
}
use synddb.Validator.Sqlite.{Sqlite, WithdrawalRequest}
use synddb.Validator.Rules.{ValidationRule}
use synddb.Validator.Store
use synddb.Validator.Store.{StateStore, next_sequence, set_last_sequence, record_sync}
use synddb.Validator.Applier.{apply_message_with_rules, extract_withdrawal}
use synddb.Validator.Audit.{PendingChangeset, store, clear_up_to, verify_changeset_chain}

pub data ApplyResult : Type 0 where
  applied stored_as_pending : ApplyResult

pub record Validator (Conn : Type 0) : Type 0 where
  pub conn : Conn
  pub state : StateStore
  pub pending : List PendingChangeset
  -- the calls of `on_withdrawal` and of `on_sync`
  pub withdrawals : List WithdrawalRequest
  pub synced : List ℕ

pub record ValidatorConfig (Conn : Type 0) : Type 0 where
  pub expected_pubkey : Bytes
  pub gap_retry_count : ℕ
  pub gap_skip_on_failure : Bool
  pub rules : Option (List (ValidationRule Conn))

-- What the fetcher, the clock, the writes and the shutdown flag answer in one round.
pub record Env : Type 0 where
  pub get : ℕ → Result (Option SignedMessage) String
  pub get_latest_sequence : Result (Option ℕ) String
  pub now : ℕ
  pub write_sequence : Result (Unit {0}) String
  pub write_time : Result (Unit {0}) String
  pub write_gap : Result (Unit {0}) String
  pub write_pending : Result (Unit {0}) String
  pub clear_pending : Result (Unit {0}) String
  pub shutdown : Bool

abbrev pub is_schema_mismatch : String → Bool
is_schema_mismatch e =
    contains_text e "Schema mismatch" || contains_text e "don't exist" || contains_text e "column"

abbrev pub is_snapshot : MessageType → Bool
is_snapshot changeset = false
is_snapshot withdrawal = false
is_snapshot snapshot = true

abbrev pub is_changeset : MessageType → Bool
is_changeset changeset = true
is_changeset withdrawal = false
is_changeset snapshot = false

abbrev pub is_nil : List PendingChangeset → Bool
is_nil [] = true
is_nil (p ∷ ps) = false

abbrev pub called : Option WithdrawalRequest → List WithdrawalRequest → List WithdrawalRequest
called none calls = calls
called (some w) calls = calls ++ w ∷ []

module _ {Conn : Type 0} (sqlite : Sqlite Conn) (codec : Codec) (crypto : Crypto)
    (config : ValidatorConfig Conn) where
  -- `SignatureVerifier::verify`: the signature, then the signer.
  unfoldable pub verify : SignedMessage → Result (Unit {0}) ValidatorError
  verify message = elim (verify_signature codec crypto message) [
    | err e ↦ err signature_verification
    | ok valid ↦
        let hex_str = strip_0x message.signer in
        if len hex_str == 128
        then (elim (codec.decode hex_str) [
          | none ↦ err invalid_signature
          | some claimed ↦
              if bytes_eq claimed config.expected_pubkey then ok tt else err signer_mismatch
        ])
        else err invalid_signature
  ]

  abbrev pub cleared :
      ℕ
      → Validator Conn
      → Result (Unit {0}) String
      → Validator Conn × Result (Unit {0}) ValidatorError
  cleared sequence v (ok done) = (record v { pending = clear_up_to sequence v.pending }, ok tt)
  cleared sequence v (err e) = (v, err (other e))

  unfoldable pub verify_pending_changesets_after_snapshot :
      Env → ℕ → Validator Conn → Validator Conn × Result (Unit {0}) ValidatorError
  unfolding verify_changeset_chain clear_up_to
  verify_pending_changesets_after_snapshot env sequence v =
      let relevant = filter (λ p. ltb p.sequence sequence) v.pending in
      if is_nil relevant
      then (v, ok tt)
      else (let checked = verify_changeset_chain sqlite v.conn relevant in
          cleared sequence (record v { conn = checked.0 }) env.clear_pending)

  abbrev pub after_snapshot :
      Validator Conn × Result (Unit {0}) ValidatorError
      → Validator Conn × Result ApplyResult ValidatorError
  after_snapshot (v, ok done) = (v, ok applied)
  after_snapshot (v, err e) = (v, err e)

  abbrev pub deferred :
      SignedMessage
      → Validator Conn
      → Result (Unit {0}) String
      → Validator Conn × Result ApplyResult ValidatorError
  deferred m v (ok done) =
      let row : PendingChangeset = record { sequence = m.sequence; changeset = m.payload } in
      (record v { pending = store row v.pending }, ok stored_as_pending)
  deferred m v (err e) = (v, err (other e))

  abbrev pub audited :
      Env
      → SignedMessage
      → Validator Conn
      → Conn × Result (Unit {0}) ValidatorError
      → Validator Conn × Result ApplyResult ValidatorError
  audited env m v (conn, ok done) =
      let v' = record v { conn = conn } in
      if is_snapshot m.message_type
      then after_snapshot (verify_pending_changesets_after_snapshot env m.sequence v')
      else (v', ok applied)
  audited env m v (conn, err e) =
      let v' = record v { conn = conn } in
      if is_schema_mismatch (to_string e) && is_changeset m.message_type
      then deferred m v' env.write_pending
      else (v', err e)

  unfoldable pub apply_message_with_audit :
      Env → SignedMessage → Validator Conn → Validator Conn × Result ApplyResult ValidatorError
  unfolding apply_message_with_rules verify_pending_changesets_after_snapshot store
  apply_message_with_audit env m v =
      audited env m v (apply_message_with_rules sqlite config.rules m v.conn)

  -- `record_sync` writes the sequence and then the time.
  abbrev pub recorded : Env → ℕ → Validator Conn → Validator Conn × Result (Unit {0}) ValidatorError
  recorded env sequence v = elim env.write_sequence [
    | err e ↦ (v, err (other e))
    | ok done ↦ elim env.write_time [
      | err e ↦ (record v { state = set_last_sequence sequence v.state }, err (other e))
      | ok done' ↦ (record v { state = record_sync env.now sequence v.state }, ok tt)
    ]
  ]

  abbrev pub then_recorded :
      Env
      → ℕ
      → Validator Conn × Result ApplyResult ValidatorError
      → Validator Conn × Result (Unit {0}) ValidatorError
  then_recorded env sequence (v, ok result) = recorded env sequence v
  then_recorded env sequence (v, err e) = (v, err e)

  -- Steps 3 to 6 of `sync_one_with_callback`, which are also the body of the loop of `sync_batch`.
  unfoldable pub process :
      Env → SignedMessage → Validator Conn → Validator Conn × Result (Unit {0}) ValidatorError
  unfolding verify extract_withdrawal apply_message_with_audit
  process env m v = elim (verify m) [
    | err e ↦ (v, err e)
    | ok valid ↦ elim (extract_withdrawal sqlite m) [
      | err e ↦ (v, err e)
      | ok w ↦
          then_recorded env m.sequence
            (apply_message_with_audit env m (record v { withdrawals = called w v.withdrawals }))
    ]
  ]

  abbrev pub was_synced :
      Validator Conn × Result (Unit {0}) ValidatorError
      → Validator Conn × Result Bool ValidatorError
  was_synced (v, ok done) = (v, ok true)
  was_synced (v, err e) = (v, err e)

  unfoldable pub sync_one_with_callback :
      Env → ℕ → Validator Conn → Validator Conn × Result Bool ValidatorError
  unfolding process
  sync_one_with_callback env sequence v = elim (env.get sequence) [
    | err e ↦ (v, err (other e))
    | ok none ↦ (v, ok false)
    | ok (some m) ↦
        if m.sequence == sequence
        then was_synced (process env m v)
        else (v, err (sequence_gap sequence m.sequence))
  ]

  -- A callback that ignores withdrawals.
  abbrev pub ignored :
      {A : Type 0}
      → Validator Conn
      → Validator Conn × Result A ValidatorError
      → Validator Conn × Result A ValidatorError
  ignored v (v', r) = (record v' { withdrawals = v.withdrawals }, r)

  unfoldable pub sync_one : Env → ℕ → Validator Conn → Validator Conn × Result Bool ValidatorError
  unfolding sync_one_with_callback
  sync_one env sequence v = ignored v (sync_one_with_callback env sequence v)

  -- One round of `sync_to_head`, given the later rounds.
  abbrev pub sync_more :
      (Validator Conn → Validator Conn × ℕ × ℕ)
      → ℕ
      → Validator Conn × Result Bool ValidatorError
      → Validator Conn × ℕ × ℕ
  sync_more rest next (v, ok true) = let (end, n, last) = rest v in (end, suc n, last)
  sync_more rest next (v, ok false) = (v, 0, next)
  sync_more rest next (v, err e) = (v, 0, next)

  -- The loop of `sync_to_head`: the validator, the number synced and the next sequence. The rounds
  -- are bounded by fuel.
  unfoldable pub sync_from : ℕ → Env → ℕ → Validator Conn → Validator Conn × ℕ × ℕ
  unfolding sync_one
  sync_from zero env next v = (v, 0, next)
  sync_from (suc fuel) env next v =
      sync_more (sync_from fuel env ((next + 1) % u64_mod)) next (sync_one env next v)

  unfoldable pub sync_to_head : ℕ → Env → Validator Conn → Validator Conn × ℕ
  unfolding sync_from
  sync_to_head fuel env v =
      let (end, n, last) = sync_from fuel env (next_sequence v.state) v in (end, n)

  abbrev pub counted :
      Validator Conn × Result ℕ ValidatorError → Validator Conn × Result ℕ ValidatorError
  counted (v, ok n) = (v, ok (n + 1))
  counted (v, err e) = (v, err e)

  -- The loop of `sync_batch` over the messages: those before `next` are skipped.
  unfoldable pub sync_messages :
      Env → ℕ → List SignedMessage → Validator Conn → Validator Conn × Result ℕ ValidatorError
  unfolding process
  sync_messages env next [] v = (v, ok 0)
  sync_messages env next (m ∷ ms) v =
      let skipped = sync_messages env next ms v in
      if ltb m.sequence next
      then skipped
      else (let (v', r) = process env m v in
          elim r [ err e ↦ (v', err e) | ok done ↦ counted (sync_messages env next ms v') ])

  unfoldable pub sync_batch :
      Env → SignedBatch → Validator Conn → Validator Conn × Result ℕ ValidatorError
  unfolding sync_messages
  sync_batch env batch v = elim (verify_batch_signature codec crypto batch) [
    | err e ↦ (v, err signature_verification)
    | ok valid ↦ sync_messages env (next_sequence v.state) batch.messages v
  ]
