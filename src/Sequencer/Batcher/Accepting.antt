-- ===== src/Sequencer/Batcher/Accepting.antt =====
-- A flush while the signer signs and the transport accepts.
use synddb.Prelude.{
  ℕ, ◌≡◌, refl, ap, ◌∙◌, subst, true, false, Option, none, some, List, [], ◌∷◌, Result, ok, All,
}
use synddb.Shared.Bytes.{Bytes}
use synddb.Shared.Cbor.Error.{CborError}
use synddb.Shared.Cbor.Crypto.{Crypto}
use synddb.Shared.Cbor.Cose.{Coset, extract_sequence}
use synddb.Shared.Cbor.Batch.{CborBatch, new_batch, last_of}
use synddb.Shared.Cbor.BatchLaws.{new_batch-total}
use synddb.Sequencer.Batcher.{
  World, Env, PendingMessage, PublishMetadata, is_empty, contents, flush_batch, sign_batch_data,
}
use synddb.Sequencer.Batcher.Flush.{held, batch_of, Disposed, flush_batch-Disposed}

-- The transport accepts whatever it is given.
abbrev pub Accepts : Env → Type 0
Accepts env = (b : CborBatch) → (m : PublishMetadata) × (env.publish b ≡ ok m)

module _ (crypto : Crypto) (coset : Coset) (pubkey : Bytes)
    (sign_raw : Bytes → Result Bytes CborError) where
  -- The message has a sequence.
  abbrev pub Parses : Bytes → Type 0
  Parses m = (s : ℕ) × (extract_sequence coset m ≡ ok s)

  abbrev pub Signs : Type 0
  Signs =
      (raw : Bytes)
      → (signature : Bytes) × (sign_batch_data crypto coset pubkey sign_raw raw ≡ ok signature)

  last-Parses : (m : Bytes) (ms : List Bytes) → All Parses (m ∷ ms) → Parses (last_of m ms)
  last-Parses m [] h = h.0
  last-Parses m (n ∷ ns) h = last-Parses n ns h.1

  build-total :
      (env : Env) (w : World) (x : PendingMessage) (xs : List PendingMessage)
      → Signs
      → w.batcher.pending ≡ x ∷ xs
      → All Parses (contents w.batcher.pending)
      → (b : CborBatch) × (batch_of crypto coset pubkey sign_raw env w ≡ ok b)
  build-total env w x xs signs e h =
      let h' : All Parses (contents (x ∷ xs)) = subst (λ t. All Parses (contents t)) e h in
      let (s, es) = h'.0 in
      let (t, et) = last-Parses x.message (contents xs) h' in
      let (b, eb) =
        new_batch-total crypto coset x.message (contents xs) env.created_at pubkey
          (sign_batch_data crypto coset pubkey sign_raw) s t signs es et in
      (
        b,
        ap
              (λ l.
                new_batch crypto coset (contents l) env.created_at pubkey
                  (sign_batch_data crypto coset pubkey sign_raw))
              e
            ∙ eb,
      )

  flush-ok :
      (env : Env) (w : World)
      → Signs
      → Accepts env
      → All Parses (contents w.batcher.pending)
      → (r : Option PublishMetadata) × ((flush_batch crypto coset pubkey sign_raw env w).1 ≡ ok r)
  unfolding flush_batch
  flush-ok env w signs accepts h = go w.batcher.pending refl
    where
      go :
          (ms : List PendingMessage)
          → w.batcher.pending ≡ ms
          → (r : Option PublishMetadata) × ((flush_batch crypto coset pubkey sign_raw env w).1
              ≡ ok r)
      go [] e =
          let t : is_empty w.batcher.pending ≡ true = ap is_empty e in (none, rw (t, flush_batch))
      go (x ∷ xs) e =
          let t : is_empty w.batcher.pending ≡ false = ap is_empty e in
          let (b, eb) = build-total env w x xs signs e h in
          let (m, em) = accepts b in (some m, rw (t, flush_batch) (rw (eb, em, flush_batch)))

  -- So such a flush stores everything held.
  pub flush-held :
      (env : Env) (w : World)
      → Signs
      → Accepts env
      → All Parses (contents w.batcher.pending)
      → let w' = (flush_batch crypto coset pubkey sign_raw env w).0 in
        (held w' ≡ held w) × (w'.batcher.pending ≡ [])
  flush-held env w signs accepts h =
      let (r, e) = flush-ok env w signs accepts h in
      let d = flush_batch-Disposed crypto coset pubkey sign_raw env w in
      subst
        (λ t.
          Disposed crypto coset pubkey sign_raw w
            ((flush_batch crypto coset pubkey sign_raw env w).0, t))
        e d
