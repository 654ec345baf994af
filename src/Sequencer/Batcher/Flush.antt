-- ===== src/Sequencer/Batcher/Flush.antt =====
-- The ways in which a flush ends.
use synddb.Prelude.{
  ◌≡◌, refl, sym, ap, ◌∙◌, true, Option, none, some, List, [], ◌∷◌, ◌++◌, length, Result, ok, err,
  Result-cases, Bool-cases, inl, inr, append-nil, append_assoc,
}
use synddb.Shared.Bytes.{Bytes}
use synddb.Shared.Cbor.Error.{CborError}
use synddb.Shared.Cbor.Crypto.{Crypto}
use synddb.Shared.Cbor.Cose.{Coset}
use synddb.Shared.Cbor.BatchLaws.{messages-new_batch}
use synddb.Shared.Cbor.Batch.{CborBatch, new_batch}
use synddb.Sequencer.Batcher.{
  World, Env, PendingMessage, PublishMetadata, BatcherError, transport, cbor, is_empty, contents,
  drained, record_published, flush_batch, sign_batch_data,
}

-- The messages of all stored batches.
abbrev pub stored : List CborBatch → List Bytes
stored [] = []
stored (b ∷ bs) = b.messages ++ stored bs

pub stored-snoc :
    (bs : List CborBatch) (b : CborBatch) → stored (bs ++ b ∷ []) ≡ stored bs ++ b.messages
stored-snoc [] b = append-nil b.messages
stored-snoc (c ∷ bs) b =
    ap (◌++◌ c.messages) (stored-snoc bs b) ∙ sym (append_assoc c.messages (stored bs) b.messages)

-- What is stored, then what is pending.
abbrev pub held : World → List Bytes
held w = stored w.storage ++ contents w.batcher.pending

pub is_empty→nil : (ms : List PendingMessage) → is_empty ms ≡ true → ms ≡ []
is_empty→nil [] h = refl
is_empty→nil (m ∷ ms) h = cc

module _ (crypto : Crypto) (coset : Coset) (pubkey : Bytes)
    (sign_raw : Bytes → Result Bytes CborError) where
  abbrev pub batch_of : Env → World → Result CborBatch CborError
  batch_of env w =
      new_batch crypto coset (contents w.batcher.pending) env.created_at pubkey
        (sign_batch_data crypto coset pubkey sign_raw)

  abbrev pub published : Env → World → CborBatch → PublishMetadata → World
  published env w batch m = record {
    batcher = record_published env (length w.batcher.pending) m (drained w.batcher);
    storage = w.storage ++ batch ∷ [];
  }

  -- A flush of nothing, a failed one, a published one.
  pub flush_cases {ℓ} :
      (P : World × Result (Option PublishMetadata) BatcherError → Type ℓ) (env : Env) (w : World)
      → (w.batcher.pending ≡ [] → P (w, ok none))
      → ((e : BatcherError) → P (record w { batcher = drained w.batcher }, err e))
      → ((batch : CborBatch) (m : PublishMetadata)
          → batch_of env w ≡ ok batch
          → env.publish batch ≡ ok m
          → P (published env w batch m, ok (some m)))
      → P (flush_batch crypto coset pubkey sign_raw env w)
  unfolding flush_batch
  flush_cases P env w nothing failed done = elim (Bool-cases (is_empty w.batcher.pending)) [
    | inl e ↦ rw (e, flush_batch) (nothing (is_empty→nil w.batcher.pending e))
    | inr e ↦ elim (Result-cases (batch_of env w)) [
      | inr (error, b) ↦ rw (e, flush_batch) (rw (b, flush_batch) (failed (cbor error)))
      | inl (batch, b) ↦ elim (Result-cases (env.publish batch)) [
        | inr (error, p) ↦ rw (e, flush_batch) (rw (b, p, flush_batch) (failed (transport error)))
        | inl (m, p) ↦ rw (e, flush_batch) (rw (b, p, flush_batch) (done batch m b p))
      ]
    ]
  ]

  -- A flush that returns leaves everything held, and nothing pending. One that fails stores
  -- nothing and leaves nothing pending either.
  abbrev pub Disposed : World → World × Result (Option PublishMetadata) BatcherError → Type 0
  Disposed w (w', ok r) = (held w' ≡ held w) × (w'.batcher.pending ≡ [])
  Disposed w (w', err e) = (w'.storage ≡ w.storage) × (w'.batcher.pending ≡ [])

  -- A flush that returns keeps every stored and pending message, in order, and all are stored. A
  -- flush that fails, to build or to publish, leaves the storage as it was and nothing pending: the
  -- messages that were pending are lost.
  pub flush_batch-Disposed :
      (env : Env) (w : World) → Disposed w (flush_batch crypto coset pubkey sign_raw env w)
  flush_batch-Disposed env w =
      flush_cases (Disposed w) env w (λ e. (refl, e)) (λ e. (refl, refl))
        λ batch m b p. (
          append-nil (stored (w.storage ++ batch ∷ []))
              ∙ stored-snoc w.storage batch
              ∙ ap (◌++◌ (stored w.storage)) (messages-new_batch crypto coset _ _ _ _ batch b),
          refl,
        )
