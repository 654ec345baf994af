-- ===== src/Validator/Sync/Whole.antt =====
-- The messages that syncing a whole batch processes.
use synddb.Prelude.{
  ℕ, ◌≡◌, refl, ap, true, false, List, [], ◌∷◌, ◌++◌, length, filter, leb, ltb, Result, ok, err,
  Result-cases, Bool-cases, ◌⊎◌, inl, inr, arith,
}
use synddb.Shared.Cbor.Crypto.{Crypto}
use synddb.Shared.Message.{
  VerificationError, SignedMessage, SignedBatch, Codec, verify_batch_signature,
}
use synddb.Validator.Error.{ValidatorError, signature_verification}
use synddb.Validator.Sqlite.{Sqlite}
use synddb.Validator.Store.{next_sequence}
use synddb.Validator.Sync.{
  Validator, ValidatorConfig, Env, process, counted, sync_messages, sync_batch,
}
use synddb.Validator.Sync.One.{Processed, LogsProcessed, process-Processed}

-- The messages that are not before a sequence.
abbrev pub not_before : ℕ → List SignedMessage → List SignedMessage
not_before next = filter (λ m. leb next m.sequence)

module _ {Conn : Type 0} (sqlite : Sqlite Conn) (codec : Codec) (crypto : Crypto)
    (config : ValidatorConfig Conn) where
  -- The messages are processed one after the other.
  abbrev pub Each : Env → List SignedMessage → Validator Conn → Validator Conn → Type 0
  Each env [] v v' = v' ≡ v
  Each env (m ∷ ms) v v' =
      (w : Validator Conn) × Processed sqlite codec crypto config env m v (w, ok tt)
      × Each env ms w v'

  -- All the messages are processed, or those in front of one that fails.
  abbrev pub ProcessesAll :
      Env → List SignedMessage → Validator Conn → Validator Conn × Result ℕ ValidatorError → Type 0
  ProcessesAll env ms v (v', ok n) = Each env ms v v' × (n ≡ length ms)
  ProcessesAll env ms v (v', err e) =
      (done : List SignedMessage) × (m : SignedMessage) × (rest : List SignedMessage)
      × (w : Validator Conn) × (ms ≡ done ++ m ∷ rest)
      × Each env done v w
      × (process sqlite codec crypto config env m w ≡ (v', err e))

  one_more :
      (env : Env) (m : SignedMessage) (ms : List SignedMessage) (v w : Validator Conn)
      (r : Validator Conn × Result ℕ ValidatorError)
      → Processed sqlite codec crypto config env m v (w, ok tt)
      → ProcessesAll env ms w r
      → ProcessesAll env (m ∷ ms) v (counted sqlite codec crypto config r)
  one_more env m ms v w (v', ok n) p (each, e) = ((w, p, each), omega (arith, e))
  one_more env m ms v w (v', err e) p (done, m', rest, w', split, each, fails) =
      (m ∷ done, m', rest, w', ap (◌∷◌ m) split, (w, p, each), fails)

  sync_messages-ProcessesAll :
      (env : Env) (next : ℕ) (ms : List SignedMessage) (v : Validator Conn)
      → ProcessesAll env
          (not_before next ms)
          v
          (sync_messages sqlite codec crypto config env next ms v)
  unfolding sync_messages
  sync_messages-ProcessesAll env next [] v = (refl, refl)
  sync_messages-ProcessesAll env next (m ∷ ms) v = elim (Bool-cases (ltb m.sequence next)) [
    | inl skipped ↦
        let out : leb next m.sequence ≡ false = ground arith in
        rw (skipped, out) (sync_messages-ProcessesAll env next ms v)
    | inr kept ↦
        let in' : leb next m.sequence ≡ true = ground arith in
        rw (kept, in')
          (go (process sqlite codec crypto config env m v) (sync_messages-ProcessesAll env next ms)
            refl (process-Processed sqlite codec crypto config env m v))
  ]
    where
      go :
          (r : Validator Conn × Result (Unit {0}) ValidatorError)
          → ((w : Validator Conn)
              → ProcessesAll env
                  (not_before next ms)
                  w
                  (sync_messages sqlite codec crypto config env next ms w))
          → process sqlite codec crypto config env m v ≡ r
          → LogsProcessed sqlite codec crypto config env m v r
          → ProcessesAll env (m ∷ not_before next ms) v (
              let (v', x) = r in
              elim x [
                | err e ↦ (v', err e)
                | ok done ↦
                    counted sqlite codec crypto config
                      (sync_messages sqlite codec crypto config env next ms v')
              ])
      go (w, ok done) later e (l, p) = one_more env m (not_before next ms) v w _ p (later w)
      go (w, err x) later e l = ([], m, not_before next ms, v, refl, refl, e)

  -- What syncing a batch does.
  abbrev pub SyncsBatch :
      Env → SignedBatch → Validator Conn → Validator Conn × Result ℕ ValidatorError → Type 0
  SyncsBatch env batch v r =
      ((verify_batch_signature codec crypto batch ≡ ok tt)
        × ProcessesAll env (not_before (next_sequence v.state) batch.messages) v r)
      ⊎ ((e : VerificationError) × (verify_batch_signature codec crypto batch ≡ err e)
          × (r ≡ (v, err signature_verification)))

  -- Syncing a batch whose signature does not verify changes nothing. Otherwise its messages that are
  -- not before the next sequence are processed in order, each once, and counted, every one of them
  -- verified, applied to the database or deferred, and recorded as the last sequence; or the first
  -- message that fails ends it, with those in front of it processed.
  pub sync_batch-SyncsBatch :
      (env : Env) (batch : SignedBatch) (v : Validator Conn)
      → SyncsBatch env batch v (sync_batch sqlite codec crypto config env batch v)
  unfolding sync_batch
  sync_batch-SyncsBatch env batch v =
      elim (Result-cases (verify_batch_signature codec crypto batch)) [
        | inr (e, f) ↦ rw (f, sync_batch) (inr (e, refl, refl))
        | inl (valid, f) ↦
            rw (f, sync_batch)
              (inl (refl, sync_messages-ProcessesAll env (next_sequence v.state) batch.messages v))
      ]
