-- ===== src/Validator/Sync/Audited.antt =====
-- What applying one message leaves behind, with its audit trail.
use synddb.Prelude.{
  List, [], ◌∷◌, false, ℕ, ◌≡◌, refl, ◌∙◌, true, String, some, ◌==◌, filter, ltb, ◌&&◌, arith,
  Result, ok, err, Bool-cases, ◌⊎◌, inl, inr,
}
use synddb.Shared.Cbor.Crypto.{Crypto}
use synddb.Shared.Message.{SignedMessage, Codec}
use synddb.Validator.Error.{ValidatorError, to_string}
use synddb.Validator.Sqlite.{Sqlite}
use synddb.Validator.Applier.{apply_message_with_rules}
use synddb.Validator.Audit.{PendingChangeset, store, clear_up_to, verify_changeset_chain}
use synddb.Validator.Audit.Store.{lookup, find-store}
use synddb.Validator.Sync.{
  Validator, ValidatorConfig, Env, ApplyResult, is_schema_mismatch, is_changeset, is_snapshot,
  is_nil, cleared, verify_pending_changesets_after_snapshot, after_snapshot, deferred, audited,
  apply_message_with_audit,
}

module _ {Conn : Type 0} where
  -- Neither the calls of `on_sync` nor the recorded gaps change.
  pub record Keeps (v v' : Validator Conn) : Type 0 where
    pub synced : v'.synced ≡ v.synced
    pub gaps : v'.state.gaps ≡ v.state.gaps
    pub sequence : v'.state.last_sequence ≡ v.state.last_sequence
    pub withdrawals : v'.withdrawals ≡ v.withdrawals

module _ {Conn : Type 0} (sqlite : Sqlite Conn) (codec : Codec) (crypto : Crypto)
    (config : ValidatorConfig Conn) where
  abbrev pub relevant : SignedMessage → Validator Conn → List PendingChangeset
  relevant m v = filter (λ p. ltb p.sequence m.sequence) v.pending

  -- After a snapshot the deferred changesets before it are checked on the database, and the table is
  -- cleared up to it; where there are none, nothing more happens.
  abbrev pub Checks : SignedMessage → Validator Conn → Conn → Validator Conn → Type 0
  Checks m v conn v' =
      ((relevant m v ≡ []) × (v'.conn ≡ conn) × (v'.pending ≡ v.pending))
      ⊎ ((is_nil (relevant m v) ≡ false)
          × (v'.conn ≡ (verify_changeset_chain sqlite conn (relevant m v)).0)
          × (v'.pending ≡ clear_up_to m.sequence v.pending))

  -- The message was applied, and its database is the validator's, checked if it was a snapshot; or it
  -- was a changeset that failed on the schema, and it waits in the table of deferred changesets.
  abbrev pub Handled : SignedMessage → Validator Conn → Validator Conn → Type 0
  Handled m v v' =
      ((conn : Conn) × (apply_message_with_rules sqlite config.rules m v.conn ≡ (conn, ok tt))
        × (((is_snapshot m.message_type ≡ false) × (v'.conn ≡ conn) × (v'.pending ≡ v.pending))
            ⊎ ((is_snapshot m.message_type ≡ true) × Checks m v conn v')))
      ⊎ ((conn : Conn) × (e : ValidatorError) × (apply_message_with_rules sqlite config.rules m
              v.conn
            ≡ (conn, err e))
          × ((is_schema_mismatch (to_string e) && is_changeset m.message_type) ≡ true)
          × (v'.conn ≡ conn)
          × (v'.pending ≡ store (record { sequence = m.sequence; changeset = m.payload }) v.pending)
          × (lookup m.sequence v'.pending
              ≡ some (record { sequence = m.sequence; changeset = m.payload })))

  abbrev pub Audits :
      SignedMessage → Validator Conn → Validator Conn × Result ApplyResult ValidatorError → Type 0
  Audits m v (v', ok r) = Keeps v v' × Handled m v v'
  Audits m v (v', err e) = Keeps v v'

  same : (v : Validator Conn) → Keeps v v
  same v = record { synced = refl; gaps = refl; sequence = refl; withdrawals = refl }

  cleared-Keeps :
      (v w : Validator Conn) (sequence : ℕ) (r : Result (Unit {0}) String)
      → Keeps v w
      → Keeps v (cleared sqlite codec crypto config sequence w r).0
  cleared-Keeps v w sequence (ok done) k = record {
    synced = k.synced;
    gaps = k.gaps;
    sequence = k.sequence;
    withdrawals = k.withdrawals;
  }
  cleared-Keeps v w sequence (err e) k = k

  snapshot-Keeps :
      (env : Env) (sequence : ℕ) (v : Validator Conn)
      → Keeps v
          (verify_pending_changesets_after_snapshot sqlite codec crypto config env sequence v).0
  unfolding verify_pending_changesets_after_snapshot
  snapshot-Keeps env sequence v =
      let relevant = filter (λ p. ltb p.sequence sequence) v.pending in
      let w = record v { conn = (verify_changeset_chain sqlite v.conn relevant).0 } in
      let moved : Keeps v w = record {
        synced = refl;
        gaps = refl;
        sequence = refl;
        withdrawals = refl;
      } in
      elim (Bool-cases (is_nil relevant)) [
        | inl e ↦ rw (e, verify_pending_changesets_after_snapshot) (same v)
        | inr e ↦
            rw (e, verify_pending_changesets_after_snapshot)
              (cleared-Keeps v w sequence env.clear_pending moved)
      ]

  is_nil-empty : (ps : List PendingChangeset) → is_nil ps ≡ true → ps ≡ []
  is_nil-empty [] h = refl
  is_nil-empty (p ∷ ps) h = absurd cc

  -- What the check leaves, if it succeeds.
  abbrev ChecksIf :
      SignedMessage
      → Validator Conn
      → Conn
      → Validator Conn × Result (Unit {0}) ValidatorError
      → Type 0
  ChecksIf m v conn (v', ok done) = Checks m v conn v'
  ChecksIf m v conn (v', err e) = Unit {0}

  snapshot-ChecksIf :
      (env : Env) (m : SignedMessage) (v : Validator Conn) (conn : Conn)
      → ChecksIf m v conn (
          verify_pending_changesets_after_snapshot sqlite codec crypto config env m.sequence
            (record v { conn = conn }))
  unfolding verify_pending_changesets_after_snapshot
  snapshot-ChecksIf env m v conn = elim (Bool-cases (is_nil (relevant m v))) [
    | inl e ↦
        rw (e, verify_pending_changesets_after_snapshot)
          (inl (is_nil-empty (relevant m v) e, refl, refl))
    | inr e ↦ rw (e, verify_pending_changesets_after_snapshot) (emptied env.clear_pending e)
  ]
    where
      emptied :
          (r : Result (Unit {0}) String)
          → is_nil (relevant m v) ≡ false
          → ChecksIf m v conn (
              cleared sqlite codec crypto config m.sequence
                (record v { conn = (verify_changeset_chain sqlite conn (relevant m v)).0 })
                r)
      emptied (ok done) e = inr (e, refl, refl)
      emptied (err x) e = tt

  after_snapshot-Audits :
      (m : SignedMessage) (v : Validator Conn)
      (r : Validator Conn × Result (Unit {0}) ValidatorError) (conn : Conn)
      → apply_message_with_rules sqlite config.rules m v.conn ≡ (conn, ok tt)
      → is_snapshot m.message_type ≡ true
      → Keeps v r.0
      → ChecksIf m v conn r
      → Audits m v (after_snapshot sqlite codec crypto config r)
  after_snapshot-Audits m v (w, ok done) conn e s k c = (k, inl (conn, e, inr (s, c)))
  after_snapshot-Audits m v (w, err x) conn e s k c = k

  deferred-Audits :
      (m : SignedMessage) (v : Validator Conn) (conn : Conn) (x : ValidatorError)
      (r : Result (Unit {0}) String)
      → apply_message_with_rules sqlite config.rules m v.conn ≡ (conn, err x)
      → (is_schema_mismatch (to_string x) && is_changeset m.message_type) ≡ true
      → Audits m v (deferred sqlite codec crypto config m (record v { conn = conn }) r)
  deferred-Audits m v conn x (ok done) e s =
      let found =
        find-store (record { sequence = m.sequence; changeset = m.payload }) m.sequence v.pending in
      let here : (m.sequence == m.sequence) ≡ true = ground arith in
      (
        record { synced = refl; gaps = refl; sequence = refl; withdrawals = refl },
        inr (conn, x, e, s, refl, refl, found ∙ rw here refl),
      )
  deferred-Audits m v conn x (err e') e s = record {
    synced = refl;
    gaps = refl;
    sequence = refl;
    withdrawals = refl;
  }

  kept :
      (env : Env) (sequence : ℕ) (v w : Validator Conn)
      → Keeps v w
      → Keeps v
          (verify_pending_changesets_after_snapshot sqlite codec crypto config env sequence w).0
  kept env sequence v w k =
      let l = snapshot-Keeps env sequence w in
      record {
        synced = l.synced ∙ k.synced;
        gaps = l.gaps ∙ k.gaps;
        sequence = l.sequence ∙ k.sequence;
        withdrawals = l.withdrawals ∙ k.withdrawals;
      }

  audited-Audits :
      (env : Env) (m : SignedMessage) (v : Validator Conn)
      (p : Conn × Result (Unit {0}) ValidatorError)
      → apply_message_with_rules sqlite config.rules m v.conn ≡ p
      → Audits m v (audited sqlite codec crypto config env m v p)
  audited-Audits env m v (conn, ok done) e =
      let w = record v { conn = conn } in
      let moved : Keeps v w = record {
        synced = refl;
        gaps = refl;
        sequence = refl;
        withdrawals = refl;
      } in
      elim (Bool-cases (is_snapshot m.message_type)) [
        | inl s ↦ rw s (
            after_snapshot-Audits m v _ conn e s (kept env m.sequence v w moved)
              (snapshot-ChecksIf env m v conn))
        | inr s ↦ rw s (moved, inl (conn, e, inl (s, refl, refl)))
      ]
  audited-Audits env m v (conn, err x) e =
      let w = record v { conn = conn } in
      let moved : Keeps v w = record {
        synced = refl;
        gaps = refl;
        sequence = refl;
        withdrawals = refl;
      } in
      elim (Bool-cases (is_schema_mismatch (to_string x) && is_changeset m.message_type)) [
        | inl s ↦ rw s (deferred-Audits m v conn x env.write_pending e s)
        | inr s ↦ rw s moved
      ]

  pub apply-Audits :
      (env : Env) (m : SignedMessage) (v : Validator Conn)
      → Audits m v (apply_message_with_audit sqlite codec crypto config env m v)
  unfolding apply_message_with_audit
  apply-Audits env m v =
      audited-Audits env m v (apply_message_with_rules sqlite config.rules m v.conn) refl
