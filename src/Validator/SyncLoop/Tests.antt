-- ===== src/Validator/SyncLoop/Tests.antt =====
-- The sync loop at concrete rounds.
use synddb.Prelude.{ℕ, ◌≡◌, refl, some, List, [], ◌∷◌, arith}
use synddb.Shared.Bytes.{bytes_eq}
use synddb.Shared.Message.{
  verify_signature, parse_cose_protected_header_fields, field_from, check_signature,
}
use synddb.Shared.Message.Tests.{codec, crypto}
use synddb.Shared.Cbor.Crypto.{signature_from_bytes, verifying_key_from_bytes, verify_secp256k1}
use synddb.Validator.Rules.{validate_all}
use synddb.Validator.Applier.{
  validate_changeset_schema, apply_single_changeset, apply_each, apply_message_with_rules,
  apply_changeset_message, extract_withdrawal,
}
use synddb.Validator.Audit.{store}
use synddb.Validator.Sync.{apply_message_with_audit, process, verify, sync_one_with_callback}
use synddb.Validator.SyncLoop.{
  detect_gap, probe, run_with_callbacks, iterate, LoopState, Outcome, running, stopped, failed,
}
use synddb.Validator.SyncLoop.Gap.{detect_gap-Detects, Detects}
use synddb.Validator.SyncLoop.Accounts.{AccountsAfter, run_with_callbacks-Accounts}
use synddb.Validator.Sync.Tests.{Db, sqlite, config, env, fresh}

abbrev next_of : Outcome Db → ℕ × List ℕ × List (ℕ × ℕ × ℕ)
next_of (running s) = (s.next_sequence, s.validator.synced, s.validator.state.gaps)
next_of (stopped s) = (s.next_sequence, s.validator.synced, s.validator.state.gaps)
next_of (failed s e) = (s.next_sequence, s.validator.synced, s.validator.state.gaps)

gap_found : detect_gap env 3 ≡ some 5
unfolding detect_gap probe
gap_found = refl

detect_gap-Detects_example : Detects env 3 (detect_gap env 3)
detect_gap-Detects_example = detect_gap-Detects env 3 (omega arith)

abbrev start : LoopState Db
start = record { validator = fresh; next_sequence = 0; not_found_count = 0 }

-- Five rounds: 0 to 2 are synced, 3 is missing and 5 is found, 5 is synced.
five_rounds :
    next_of (run_with_callbacks sqlite codec crypto config (env ∷ env ∷ env ∷ env ∷ env ∷ []) start)
    ≡ (6, (0 ∷ 1 ∷ 2 ∷ 5 ∷ []), (3, 5, 100) ∷ [])
unfolding run_with_callbacks iterate detect_gap probe sync_one_with_callback process verify bytes_eq
    verify_signature parse_cose_protected_header_fields field_from check_signature
    signature_from_bytes verifying_key_from_bytes verify_secp256k1 extract_withdrawal
    apply_message_with_audit apply_message_with_rules apply_changeset_message apply_each
    apply_single_changeset validate_changeset_schema validate_all store
five_rounds = refl

run_with_callbacks-Accounts_example :
    AccountsAfter 0 (run_with_callbacks sqlite codec crypto config (env ∷ env ∷ []) start)
run_with_callbacks-Accounts_example =
    run_with_callbacks-Accounts sqlite codec crypto config 0 (env ∷ env ∷ []) start
      (refl, (refl, tt)) λ n lo hi. absurd (omega arith)
