-- ===== src/Validator/Applier/Laws.antt =====
-- A changeset message commits whole or not at all.
use synddb.Prelude.{
  sym, ◌≡◌, refl, ap, ◌∙◌, String, Option, List, Result, ok, err, Result-cases, inl, inr,
}
use synddb.Shared.Bytes.{Bytes}
use synddb.Shared.Message.{SignedMessage, changeset}
use synddb.Validator.Error.{ValidatorError}
use synddb.Validator.Sqlite.{Sqlite}
use synddb.Validator.Rules.{ValidationRule}
use synddb.Validator.Applier.{
  apply_each, decompress_and_parse, run_rules, begin_transaction, apply_changeset_message, checked,
  after_rules, after_commit, dropped, Transaction, apply_message_with_rules,
}
use synddb.Validator.Applier.Batches.{
  RulesAllow, rules-allow, allow-rules, AppliesAll, apply_each-AppliesAll, AppliesAll-apply_each,
}

module _ {Conn : Type 0} (sqlite : Sqlite Conn) where
  -- The payload decompresses to a batch.
  abbrev pub Decodes : SignedMessage → String × List Bytes → Type 0
  Decodes message batch =
      (raw : Bytes) × (sqlite.decompress message.payload ≡ ok raw)
      × (sqlite.read_changesets raw ≡ ok batch)

  decoded :
      (message : SignedMessage) (batch : String × List Bytes)
      → decompress_and_parse sqlite sqlite.read_changesets message "changeset batch" ≡ ok batch
      → Decodes message batch
  decoded message batch h = elim (Result-cases (sqlite.decompress message.payload)) [
    | inr (e, bad) ↦ absurd (let f = rw (bad, decompress_and_parse) at h in cc)
    | inl (raw, good) ↦
        let h' = rw (good, decompress_and_parse) at h in
        elim (Result-cases (sqlite.read_changesets raw)) [
          | inr (e, bad) ↦ absurd (let f = rw bad at h' in cc)
          | inl (b, read) ↦
              let f : ◌≡◌ {A = Result (String × List Bytes) ValidatorError} (ok b) (ok batch) =
                rw read at h' in
              (raw, good, read ∙ ap (λ x. ok x) (same b f))
        ]
  ]
    where
      same :
          (b : String × List Bytes)
          → ◌≡◌ {A = Result (String × List Bytes) ValidatorError} (ok b) (ok batch)
          → b ≡ batch
      same b f = cc

  -- When a changeset message commits, and what it leaves.
  abbrev pub Commits : Option (List (ValidationRule Conn)) → SignedMessage → Conn → Conn → Type 0
  Commits rules message conn conn' =
      (batch : String × List Bytes) × Decodes message batch
      × (sqlite.begin conn ≡ ok tt)
      × AppliesAll sqlite conn batch.1 conn'
      × RulesAllow sqlite rules message.sequence conn'
      × (sqlite.commit conn' ≡ ok tt)

  -- An error with the database as it was, or a commit.
  abbrev pub Transacts :
      Option (List (ValidationRule Conn))
      → SignedMessage
      → Conn
      → Conn × Result (Unit {0}) ValidatorError
      → Type 0
  Transacts rules message conn (conn', err e) =
      (conn' ≡ conn) × ((end' : Conn) → Commits rules message conn end' → ⊥)
  Transacts rules message conn (conn', ok done) = Commits rules message conn conn'

  -- A result that keeps the database on an error, and commits otherwise.
  abbrev Sound :
      Option (List (ValidationRule Conn))
      → SignedMessage
      → Conn
      → Conn × Result (Unit {0}) ValidatorError
      → Type 0
  Sound rules message conn (conn', err e) = conn' ≡ conn
  Sound rules message conn (conn', ok done) = Commits rules message conn conn'

  begun :
      (conn : Conn) (tx : Transaction Conn)
      → begin_transaction sqlite conn ≡ ok tx
      → (sqlite.begin conn ≡ ok tt) × (tx ≡ record { stored = conn; content = conn })
  begun conn tx h = elim (Result-cases (sqlite.begin conn)) [
    | inr (e, bad) ↦ absurd (let f = rw (bad, begin_transaction) at h in cc)
    | inl (u, good) ↦
        let f : ◌≡◌ {A = Result (Transaction Conn) ValidatorError}
            (ok (record { stored = conn; content = conn })) (ok tx) =
          rw (good, begin_transaction) at h in
        (good, same (record { stored = conn; content = conn }) f)
  ]
    where
      same :
          (x : Transaction Conn)
          → ◌≡◌ {A = Result (Transaction Conn) ValidatorError} (ok x) (ok tx)
          → tx ≡ x
      same x f = cc

  checked-Sound :
      (rules : Option (List (ValidationRule Conn))) (message : SignedMessage) (conn : Conn)
      (batch : String × List Bytes)
      → Decodes message batch
      → sqlite.begin conn ≡ ok tt
      → (r : Result Conn ValidatorError)
      → apply_each sqlite message.sequence batch.0 0 conn batch.1 ≡ r
      → Sound rules message conn (
          dropped sqlite
            (checked sqlite rules message.sequence (record { stored = conn; content = conn }) r))
  checked-Sound rules message conn batch d b (err e) h = refl
  checked-Sound rules message conn batch d b (ok conn') h =
      ruled (run_rules sqlite rules conn' message.sequence) refl
    where
      ruled :
          (v : Result (Unit {0}) ValidatorError)
          → run_rules sqlite rules conn' message.sequence ≡ v
          → Sound rules message conn
              (dropped sqlite (after_rules sqlite (record { stored = conn; content = conn' }) v))
      ruled (err e) bad = refl
      ruled (ok valid) allowed = stored_if (sqlite.commit conn') refl
        where
          stored_if :
              (c : Result (Unit {0}) String)
              → sqlite.commit conn' ≡ c
              → Sound rules message conn (
                  dropped sqlite
                    (after_commit sqlite (record { stored = conn; content = conn' }) c))
          stored_if (err e) bad = refl
          stored_if (ok done) good =
              let all =
                apply_each-AppliesAll sqlite message.sequence batch.0 0 conn conn' batch.1 h in
              let allow = rules-allow sqlite rules message.sequence conn' allowed in
              (batch, d, b, all, allow, good)

  apply_changeset_message-Sound :
      (rules : Option (List (ValidationRule Conn))) (message : SignedMessage) (conn : Conn)
      → Sound rules message conn (apply_changeset_message sqlite rules message conn)
  unfolding apply_changeset_message
  apply_changeset_message-Sound rules message conn =
      elim (Result-cases
        (decompress_and_parse sqlite sqlite.read_changesets message "changeset batch")) [
          | inr (e, bad) ↦ rw (bad, apply_changeset_message) refl
          | inl (batch, good) ↦ elim (Result-cases (begin_transaction sqlite conn)) [
            | inr (e, bad) ↦ rw (good, apply_changeset_message) (rw bad refl)
            | inl (tx, start) ↦
                let (b, same) = begun conn tx start in
                let start' = start ∙ ap (λ x. ok x) same in
                rw (good, apply_changeset_message)
                  (rw start'
                    (checked-Sound rules message conn batch (decoded message batch good) b _ refl))
          ]
        ]

  Commits-apply :
      (rules : Option (List (ValidationRule Conn))) (message : SignedMessage) (conn conn' : Conn)
      → Commits rules message conn conn'
      → apply_changeset_message sqlite rules message conn ≡ (conn', ok tt)
  unfolding apply_changeset_message
  Commits-apply rules message conn conn' (batch, (raw, unpacked, read), b, all, allow, good) =
      let parsed : decompress_and_parse sqlite sqlite.read_changesets message "changeset batch"
          ≡ ok batch =
        rw unpacked (rw read refl) in
      let each = AppliesAll-apply_each sqlite message.sequence batch.0 0 conn conn' batch.1 all in
      let valid = allow-rules sqlite rules message.sequence conn' allow in
      rw (parsed, apply_changeset_message)
        (rw b (
          rw each (
            ap
              (λ v.
                dropped sqlite (after_rules sqlite (record { stored = conn; content = conn' }) v))
              valid
            ∙ ap
                (λ c.
                  dropped sqlite
                    (after_commit sqlite (record { stored = conn; content = conn' }) c))
                good)))

  -- A changeset message is atomic: with an error the database is as it was, and there is nothing that
  -- could be committed. Else the payload decompresses to a batch, a transaction begins, every changeset
  -- that is not empty is applied, one after the other, with the tables it was made for, every enabled
  -- rule allows what they lead to, and that is committed and is what the database holds.
  pub apply_message_with_rules-Transacts :
      (rules : Option (List (ValidationRule Conn))) (message : SignedMessage) (conn : Conn)
      → message.message_type ≡ changeset
      → Transacts rules message conn (apply_message_with_rules sqlite rules message conn)
  unfolding apply_message_with_rules
  apply_message_with_rules-Transacts rules message conn h =
      rw (h, apply_message_with_rules)
        (go (apply_changeset_message sqlite rules message conn) refl
          (apply_changeset_message-Sound rules message conn))
    where
      go :
          (r : Conn × Result (Unit {0}) ValidatorError)
          → apply_changeset_message sqlite rules message conn ≡ r
          → Sound rules message conn r
          → Transacts rules message conn r
      go (conn', ok done) e sound = sound
      go (conn', err x) e sound =
          (sound, λ end' c. absurd (let f = sym e ∙ Commits-apply rules message conn end' c in cc))
