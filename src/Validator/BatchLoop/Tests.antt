-- ===== src/Validator/BatchLoop/Tests.antt =====
-- The loop over batches at concrete rounds.
use synddb.Prelude.{
  ℕ, ◌≡◌, ◌⊎◌, inl, inr, refl, sym, subst, str_eq, String, Option, some, true, false, List, [], ◌∷◌,
  Result, ok, if◌then◌else◌, arith, All,
}
use synddb.Shared.Bytes.{bytes_eq}
use synddb.Shared.BatchInfo
use synddb.Shared.Message.{
  SignedBatch, SignedMessage, changeset, verify_batch_signature, verify_signature,
  parse_cose_protected_header_fields, field_from, check_signature,
}
use synddb.Shared.Message.Tests.{codec, crypto, message, batch}
use synddb.Shared.Cbor.Crypto.{signature_from_bytes, verifying_key_from_bytes, verify_secp256k1}
use synddb.Validator.Rules.{validate_all}
use synddb.Validator.Applier.{
  validate_changeset_schema, apply_single_changeset, apply_each, apply_message_with_rules,
  apply_changeset_message, extract_withdrawal,
}
use synddb.Validator.Sync.{apply_message_with_audit, verify}
use synddb.Validator.SyncBatched.{BatchEnv}
use synddb.Validator.BatchIndex.{find_batch_containing, find_first_batch_starting_at_or_after}
use synddb.Validator.BatchLoop.{
  Round, BatchLoopState, Outcome, running, stopped, failed, handle_message, handle_messages,
  iterate, run_batched,
}
use synddb.Validator.BatchLoop.Accounts.{Consecutive, Promises, SoundAfter, run_batched-Sound}
use synddb.Validator.Sync.Tests.{Db, sqlite, config, env, fresh}

abbrev with_messages : List SignedMessage → SignedBatch
with_messages ms = record batch { messages = ms }

abbrev listed : List BatchInfo.BatchInfo
listed = BatchInfo.new 0 0 "a" ∷ BatchInfo.new 2 2 "b" ∷ []

abbrev archive : BatchEnv
archive = record {
  supports_batches = true;
  list_batches = ok listed;
  get_batch_by_path = λ path.
      if str_eq path "a"
      then ok (some (with_messages (message 0 changeset ∷ [])))
      else ok (some (with_messages (message 2 changeset ∷ [])));
}

abbrev round : BatchEnv → Round
round fetcher = record { env = env; fetcher = fetcher; refresh_due = false }

abbrev start : List BatchInfo.BatchInfo → BatchLoopState Db
start infos = record {
  validator = fresh;
  index = record { batches = infos };
  next_sequence = 0;
  caught_up = false;
}

abbrev next_of : Outcome Db → ℕ × List ℕ × List (ℕ × ℕ × ℕ)
next_of (running s) = (s.next_sequence, s.validator.synced, s.validator.state.gaps)
next_of (stopped s) = (s.next_sequence, s.validator.synced, s.validator.state.gaps)
next_of (failed s e) = (s.next_sequence, s.validator.synced, s.validator.state.gaps)

-- A gap between two batches is written down.
gap_between :
    next_of (
      run_batched sqlite codec crypto config
        (round archive ∷ round archive ∷ round archive ∷ [])
        (start listed))
    ≡ (3, (0 ∷ 2 ∷ []), (1, 2, 100) ∷ [])
unfolding run_batched iterate find_batch_containing find_first_batch_starting_at_or_after
    handle_messages handle_message verify_batch_signature verify bytes_eq verify_signature
    parse_cose_protected_header_fields field_from check_signature signature_from_bytes
    verifying_key_from_bytes verify_secp256k1 extract_withdrawal apply_message_with_audit
    apply_message_with_rules apply_changeset_message apply_each apply_single_changeset
    validate_changeset_schema validate_all
gap_between = refl

-- One batch of the messages 0 and 2, and one of message 0 alone that is listed up to 2.
abbrev holes : List SignedMessage → BatchEnv
holes ms = record archive { get_batch_by_path = λ path. ok (some (with_messages ms)) }

-- A gap inside a batch is not.
gap_inside :
    next_of (
      run_batched sqlite codec crypto config
        (round (holes (message 0 changeset ∷ message 2 changeset ∷ [])) ∷ [])
        (start (BatchInfo.new 0 2 "c" ∷ [])))
    ≡ (3, (0 ∷ 2 ∷ []), [])
unfolding run_batched iterate find_batch_containing find_first_batch_starting_at_or_after
    handle_messages handle_message verify_batch_signature verify bytes_eq verify_signature
    parse_cose_protected_header_fields field_from check_signature signature_from_bytes
    verifying_key_from_bytes verify_secp256k1 extract_withdrawal apply_message_with_audit
    apply_message_with_rules apply_changeset_message apply_each apply_single_changeset
    validate_changeset_schema validate_all
gap_inside = refl

abbrev Known : BatchInfo.BatchInfo → Type 0
Known info = (info ≡ BatchInfo.new 0 0 "a") ⊎ (info ≡ BatchInfo.new 2 2 "b")

promised : Promises sqlite codec crypto config Known (round archive)
promised = (lists, fetches)
  where
    lists :
        (infos : List BatchInfo.BatchInfo)
        → ◌≡◌ {A = Result (List BatchInfo.BatchInfo) String} (ok listed) (ok infos)
        → All Known infos
    lists infos e =
        let same : listed ≡ infos = cc in subst (All Known) same (inl refl, (inr refl, tt))

    fetches :
        (info : BatchInfo.BatchInfo) (b : SignedBatch)
        → Known info
        → archive.get_batch_by_path info.path ≡ ok (some b)
        → verify_batch_signature codec crypto b ≡ ok tt
        → Consecutive info.start_sequence b.messages
    fetches info b (inl e) f v =
        let g : ◌≡◌ {A = Result (Option SignedBatch) String}
            (ok (some (with_messages (message 0 changeset ∷ [])))) (ok (some b)) =
          subst (λ i. archive.get_batch_by_path i.path ≡ ok (some b)) e f in
        let same : with_messages (message 0 changeset ∷ []) ≡ b = cc in
        subst (λ i. Consecutive i.start_sequence b.messages) (sym e)
          (subst (λ x. Consecutive 0 x.messages) same (refl, omega arith, tt))
    fetches info b (inr e) f v =
        let g : ◌≡◌ {A = Result (Option SignedBatch) String}
            (ok (some (with_messages (message 2 changeset ∷ [])))) (ok (some b)) =
          subst (λ i. archive.get_batch_by_path i.path ≡ ok (some b)) e f in
        let same : with_messages (message 2 changeset ∷ []) ≡ b = cc in
        subst (λ i. Consecutive i.start_sequence b.messages) (sym e)
          (subst (λ x. Consecutive 2 x.messages) same (refl, omega arith, tt))

run_batched-Sound_example :
    SoundAfter sqlite codec crypto config Known 0
      (run_batched sqlite codec crypto config (round archive ∷ round archive ∷ []) (start listed))
run_batched-Sound_example =
    run_batched-Sound sqlite codec crypto config Known 0 (round archive ∷ round archive ∷ [])
      (start listed) (promised, (promised, tt))
      ((inl refl, (inr refl, tt)), λ n lo hi. absurd (omega arith))
