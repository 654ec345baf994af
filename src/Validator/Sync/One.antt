-- ===== src/Validator/Sync/One.antt =====
-- What one message leaves behind, on every branch.
use synddb.Prelude.{
  ℕ, ◌≡◌, ◌≢◌, refl, ap, ◌∙◌, Bool, true, false, Option, none, some, ◌==◌, arith, Result, ok, err,
  Result-cases, Option-cases, Bool-cases, ◌⊎◌, inl, inr,
}
use synddb.Shared.Cbor.Crypto.{Crypto}
use synddb.Shared.Message.{SignedMessage, Codec}
use synddb.Validator.Error.{ValidatorError}
use synddb.Validator.Sqlite.{Sqlite, WithdrawalRequest}
use synddb.Validator.Applier.{extract_withdrawal}
use synddb.Validator.Audit.Store.{lookup}
use synddb.Validator.Sync.{
  Validator, ValidatorConfig, Env, ApplyResult, called, verify, recorded, then_recorded, process,
  was_synced, sync_one_with_callback,
}
use synddb.Validator.Sync.Audited.{Handled, Audits, apply-Audits}

module _ {Conn : Type 0} (sqlite : Sqlite Conn) (codec : Codec) (crypto : Crypto)
    (config : ValidatorConfig Conn) where
  -- What a processed message leaves.
  abbrev pub Processed :
      Env
      → SignedMessage
      → Validator Conn
      → Validator Conn × Result (Unit {0}) ValidatorError
      → Type 0
  Processed env m v (v', ok done) =
      (verify sqlite codec crypto config m ≡ ok tt)
      × (v'.state.last_sequence ≡ some m.sequence)
      × Handled sqlite codec crypto config m v v'
      × ((w : Option WithdrawalRequest) × (extract_withdrawal sqlite m ≡ ok w)
          × (v'.withdrawals ≡ called w v.withdrawals))
  Processed env m v (v', err e) =
      (v'.state.last_sequence ≡ v.state.last_sequence) ⊎ (env.write_time ≢ ok tt)

  abbrev pub Logs : Validator Conn → Validator Conn → Type 0
  Logs v v' = (v'.synced ≡ v.synced) × (v'.state.gaps ≡ v.state.gaps)

  abbrev pub Recorded :
      Env
      → ℕ
      → Validator Conn
      → Validator Conn
      → Validator Conn × Result (Unit {0}) ValidatorError
      → Type 0
  Recorded env sequence v w (v', ok done) =
      Logs v v'
      × (v'.state.last_sequence ≡ some sequence)
      × (v'.conn ≡ w.conn)
      × (v'.pending ≡ w.pending)
      × (v'.withdrawals ≡ w.withdrawals)
  Recorded env sequence v w (v', err e) =
      Logs v v' × ((v'.state.last_sequence ≡ v.state.last_sequence) ⊎ (env.write_time ≢ ok tt))

  pub recorded-Recorded :
      (env : Env) (sequence : ℕ) (v w : Validator Conn)
      → Logs v w
      → w.state.last_sequence ≡ v.state.last_sequence
      → Recorded env sequence v w (recorded sqlite codec crypto config env sequence w)
  recorded-Recorded env sequence v w l e = elim (Result-cases env.write_sequence) [
    | inr (x, f) ↦ rw f (l, inl e)
    | inl (done, f) ↦ elim (Result-cases env.write_time) [
      | inl (done', g) ↦ rw (f, g) (l, refl, refl, refl, refl)
      | inr (x, g) ↦ rw f (rw g (l, inr (λ t. cc)))
    ]
  ]

  abbrev pub LogsProcessed :
      Env
      → SignedMessage
      → Validator Conn
      → Validator Conn × Result (Unit {0}) ValidatorError
      → Type 0
  LogsProcessed env m v r = Logs v r.0 × Processed env m v r

  -- The end of `process`, once the message is verified and its withdrawal is known.
  recorded-Processed :
      (env : Env) (m : SignedMessage) (v : Validator Conn) (w : Option WithdrawalRequest)
      (a : Validator Conn × Result ApplyResult ValidatorError)
      → verify sqlite codec crypto config m ≡ ok tt
      → extract_withdrawal sqlite m ≡ ok w
      → Audits sqlite codec crypto config m (record v { withdrawals = called w v.withdrawals }) a
      → LogsProcessed env m v (then_recorded sqlite codec crypto config env m.sequence a)
  recorded-Processed env m v w (x, err e) verified extracted k =
      ((k.synced, k.gaps), inl k.sequence)
  recorded-Processed env m v w (x, ok r) verified extracted (k, handled) =
      finish (recorded sqlite codec crypto config env m.sequence x)
        (recorded-Recorded env m.sequence v x (k.synced, k.gaps) k.sequence)
    where
      moved :
          (y : Validator Conn)
          → y.conn ≡ x.conn
          → y.pending ≡ x.pending
          → Handled sqlite codec crypto config m
              (record v { withdrawals = called w v.withdrawals })
              x
          → Handled sqlite codec crypto config m v y
      moved y c e (inl (conn, h, inl (s, d, p))) = inl (conn, h, inl (s, c ∙ d, e ∙ p))
      moved y c e (inl (conn, h, inr (s, inl (n, d, p)))) =
          inl (conn, h, inr (s, inl (n, c ∙ d, e ∙ p)))
      moved y c e (inl (conn, h, inr (s, inr (n, d, p)))) =
          inl (conn, h, inr (s, inr (n, c ∙ d, e ∙ p)))
      moved y c e (inr (conn, x', h, s, d, p, there)) =
          inr (conn, x', h, s, c ∙ d, e ∙ p, ap (lookup m.sequence) e ∙ there)

      finish :
          (r : Validator Conn × Result (Unit {0}) ValidatorError)
          → Recorded env m.sequence v x r
          → LogsProcessed env m v r
      finish (y, ok done) (l, last, conn, pending, calls) =
          (l, (verified, last, moved y conn pending handled, (w, extracted, calls ∙ k.withdrawals)))
      finish (y, err e) (l, last) = (l, last)

  pub process-Processed :
      (env : Env) (m : SignedMessage) (v : Validator Conn)
      → LogsProcessed env m v (process sqlite codec crypto config env m v)
  unfolding process
  process-Processed env m v = elim (Result-cases (verify sqlite codec crypto config m)) [
    | inr (e, f) ↦ rw (f, process) ((refl, refl), inl refl)
    | inl (valid, f) ↦ elim (Result-cases (extract_withdrawal sqlite m)) [
      | inr (e, g) ↦ rw (f, process) (rw (g, process) ((refl, refl), inl refl))
      | inl (w, g) ↦
          let v' = record v { withdrawals = called w v.withdrawals } in
          rw (f, process)
            (rw (g, process)
              (recorded-Processed env m v w _ f g
                (apply-Audits sqlite codec crypto config env m v')))
    ]
  ]

  -- What syncing one sequence leaves.
  abbrev pub SyncsOne :
      Env → ℕ → Validator Conn → Validator Conn × Result Bool ValidatorError → Type 0
  SyncsOne env s v (v', ok true) =
      (m : SignedMessage) × (env.get s ≡ ok (some m))
      × (m.sequence ≡ s)
      × Processed env m v (v', ok tt)
  SyncsOne env s v (v', ok false) = (env.get s ≡ ok none) × (v' ≡ v)
  SyncsOne env s v (v', err e) =
      (v'.state.last_sequence ≡ v.state.last_sequence) ⊎ (env.write_time ≢ ok tt)

  synced-SyncsOne :
      (env : Env) (m : SignedMessage) (s : ℕ) (v : Validator Conn)
      (r : Validator Conn × Result (Unit {0}) ValidatorError)
      → env.get s ≡ ok (some m)
      → m.sequence ≡ s
      → LogsProcessed env m v r
      → Logs v (was_synced sqlite codec crypto config r).0
        × SyncsOne env s v (was_synced sqlite codec crypto config r)
  synced-SyncsOne env m s v (x, ok done) e f (l, p) = (l, (m, e, f, p))
  synced-SyncsOne env m s v (x, err y) e f (l, p) = (l, p)

  pub sync_one-SyncsOne :
      (env : Env) (s : ℕ) (v : Validator Conn)
      → Logs v (sync_one_with_callback sqlite codec crypto config env s v).0
        × SyncsOne env s v (sync_one_with_callback sqlite codec crypto config env s v)
  unfolding sync_one_with_callback
  sync_one-SyncsOne env s v = elim (Result-cases (env.get s)) [
    | inr (e, f) ↦ rw (f, sync_one_with_callback) ((refl, refl), inl refl)
    | inl (found, f) ↦ elim (Option-cases found) [
      | inl none' ↦
          let g = f ∙ ap ok none' in rw (g, sync_one_with_callback) ((refl, refl), (g, refl))
      | inr (m, some') ↦
          let g = f ∙ ap ok some' in
          elim (Bool-cases (m.sequence == s)) [
            | inl t ↦
                rw (g, sync_one_with_callback)
                  (rw (t, sync_one_with_callback)
                    (synced-SyncsOne env m s v _ g (ground arith) (process-Processed env m v)))
            | inr t ↦
                rw (g, sync_one_with_callback)
                  (rw (t, sync_one_with_callback) ((refl, refl), inl refl))
          ]
    ]
  ]
