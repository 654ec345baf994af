-- ===== src/Sequencer/Batcher/Invariant.antt =====
-- The byte count, the thresholds and the statistics.
use synddb.Prelude.{
  ℕ, suc, ◌-◌, ◌%◌, ◌<◌, ◌≡◌, refl, ap, List, [], ◌∷◌, ◌++◌, length, sum, map, Result, arith,
  u64_mod, Bool-cases, ◌⊎◌, inl, inr, sum-append, length-append, leb,
}
use synddb.Shared.Bytes.{Bytes}
use synddb.Shared.Cbor.Error.{CborError}
use synddb.Shared.Cbor.Crypto.{Crypto}
use synddb.Shared.Cbor.Cose.{Coset}
use synddb.Shared.Cbor.BatchLaws.{messages-new_batch}
use synddb.Sequencer.Batcher.{
  World, Env, Event, add_message, flush, get_stats, shutdown, tick, PendingMessage, is_empty,
  contents, flush_batch, pushed, should_flush, handle_add_message, step,
}
use synddb.Sequencer.Batcher.Flush.{stored, stored-snoc, flush_cases}

abbrev pub sizes : List PendingMessage → List ℕ
sizes = map (λ m. m.size)

pub record IsValid (w : World) : Type 0 where
  -- the byte count is that of the pending messages, as a word
  pub bytes : w.batcher.pending_bytes ≡ sum (sizes w.batcher.pending) % u64_mod
  -- what is pending reaches no threshold
  pub within :
      (w.batcher.pending ≡ [])
      ⊎ ((length w.batcher.pending < w.batcher.max_messages)
          × (w.batcher.pending_bytes < w.batcher.max_batch_bytes))
  -- the counters are those of the storage, as words
  pub batches : w.batcher.stats.batches_published ≡ length w.storage % u64_mod
  pub messages : w.batcher.stats.messages_published ≡ length (stored w.storage) % u64_mod

map-snoc :
    (ms : List PendingMessage) (x : PendingMessage) → sizes (ms ++ x ∷ []) ≡ sizes ms ++ x.size ∷ []
map-snoc [] x = refl
map-snoc (m ∷ ms) x = ap (◌∷◌ m.size) (map-snoc ms x)

length-contents : (ms : List PendingMessage) → length (contents ms) ≡ length ms
length-contents [] = refl
length-contents (m ∷ ms) = ap suc (length-contents ms)

module _ (crypto : Crypto) (coset : Coset) (pubkey : Bytes)
    (sign_raw : Bytes → Result Bytes CborError) where
  -- A flush needs no threshold to hold before it.
  record Counts (w : World) : Type 0 where
    bytes : w.batcher.pending_bytes ≡ sum (sizes w.batcher.pending) % u64_mod
    batches : w.batcher.stats.batches_published ≡ length w.storage % u64_mod
    messages : w.batcher.stats.messages_published ≡ length (stored w.storage) % u64_mod

  counts : {w : World} → IsValid w → Counts w
  counts v = record { bytes = v.bytes; batches = v.batches; messages = v.messages }

  flush-IsValid :
      (env : Env) (w : World)
      → Counts w
      → IsValid (flush_batch crypto coset pubkey sign_raw env w).0
  flush-IsValid env w v =
      flush_cases crypto coset pubkey sign_raw (λ r. IsValid r.0) env w
        (λ e. record {
          bytes = v.bytes;
          within = inl e;
          batches = v.batches;
          messages = v.messages;
        })
        (λ e. record {
          bytes = omega arith;
          within = inl refl;
          batches = v.batches;
          messages = v.messages;
        })
        λ batch m b p. record {
          bytes = omega arith;
          within = inl refl;
          batches = omega (arith, v.batches, length-append w.storage (batch ∷ []));
          messages = omega (
            arith,
            v.messages,
            ap length (stored-snoc w.storage batch),
            length-append (stored w.storage) batch.messages,
            ap length (messages-new_batch crypto coset _ _ _ _ batch b),
            length-contents w.batcher.pending,
          );
        }

  pushed-Counts :
      (m : Bytes) (w : World)
      → IsValid w
      → Counts (record w { batcher = pushed crypto coset pubkey sign_raw m w.batcher })
  pushed-Counts m w v = record {
    bytes = omega (
      arith,
      v.bytes,
      ap sum (map-snoc w.batcher.pending (record { message = m; size = length m })),
      sum-append (sizes w.batcher.pending) (length m ∷ []),
    );
    batches = v.batches;
    messages = v.messages;
  }

  add-IsValid :
      (env : Env) (m : Bytes) (w : World)
      → IsValid w
      → IsValid (handle_add_message crypto coset pubkey sign_raw env m w).0
  unfolding handle_add_message
  add-IsValid env m w v =
      let w' = record w { batcher = pushed crypto coset pubkey sign_raw m w.batcher } in
      let c = pushed-Counts m w v in
      elim (Bool-cases (should_flush crypto coset pubkey sign_raw w'.batcher)) [
        | inl e ↦ rw (e, handle_add_message) (flush-IsValid env w' c)
        | inr e ↦
            rw (e, handle_add_message)
              (record {
                bytes = c.bytes;
                within = inr (ground arith, ground arith);
                batches = c.batches;
                messages = c.messages;
              })
      ]

  -- Every event keeps the batcher valid: the byte count is that of the pending messages, what is
  -- pending reaches neither threshold, and the two counters of published batches and messages are
  -- those of the storage. This holds whether or not signing and publishing succeed.
  step-IsValid :
      (env : Env) (event : Event) (w : World)
      → IsValid w
      → IsValid (step crypto coset pubkey sign_raw env event w).0
  unfolding step
  step-IsValid env (add_message m) w v = add-IsValid env m w v
  step-IsValid env flush w v = flush-IsValid env w (counts v)
  step-IsValid env get_stats w v = record {
    bytes = v.bytes;
    within = v.within;
    batches = v.batches;
    messages = v.messages;
  }
  step-IsValid env shutdown w v = elim (Bool-cases (is_empty w.batcher.pending)) [
    | inl e ↦ rw (e, step) v
    | inr e ↦ rw (e, step) (flush-IsValid env w (counts v))
  ]
  step-IsValid env tick w v = elim (Bool-cases (is_empty w.batcher.pending)) [
    | inl e ↦ rw (e, step) v
    | inr e ↦ elim (Bool-cases (leb w.batcher.flush_interval (env.now - w.batcher.last_flush))) [
      | inl f ↦ rw (e, step) (rw (f, step) (flush-IsValid env w (counts v)))
      | inr f ↦ rw (e, step) (rw (f, step) v)
    ]
  ]
