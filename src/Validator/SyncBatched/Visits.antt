-- ===== src/Validator/SyncBatched/Visits.antt =====
-- The batches that a batched sync visits.
use synddb.Prelude.{
  subst, ◌⊎◌, ℕ, zero, suc, ◌+◌, ◌≤◌, ◌<◌, ◌≡◌, refl, sym, ap, ◌∙◌, Bool, true, false, String,
  Option, none, some, List, [], ◌∷◌, length, drop, filter, leb, Result, ok, err, Bool-cases, inl,
  inr, arith, if◌then◌else◌,
}
use synddb.Shared.BatchInfo.{BatchInfo}
use synddb.Shared.Cbor.Crypto.{Crypto}
use synddb.Shared.Message.{Codec, SignedBatch}
use synddb.Validator.Error.{ValidatorError, other}
use synddb.Validator.Sqlite.{Sqlite}
use synddb.Validator.Store.{next_sequence}
use synddb.Validator.BatchIndex.{
  BatchIndex, BatchIterator, starting_from, starting_at, current_batch, is_exhausted,
  advance_to_next_batch,
}
use synddb.Validator.BatchIndex.Order.{Ordered}
use synddb.Validator.BatchIndex.Iterator.{get_elem?-drop-nil, get_elem?-drop-cons}
use synddb.Validator.Sync.{Validator, ValidatorConfig, Env, sync_batch, ignored}
use synddb.Validator.SyncBatched.{
  BatchEnv, one_batch, synced_then, sync_batches, by_listing, sync_to_head_batched,
}

-- The batches that are not over before a sequence.
abbrev pub not_over : ℕ → List BatchInfo → List BatchInfo
not_over s = filter (λ b. leb s b.end_sequence)

all-not_over : (s lo : ℕ) (bs : List BatchInfo) → Ordered lo bs → s ≤ lo → not_over s bs ≡ bs
all-not_over s lo [] o h = refl
all-not_over s lo (b ∷ bs) o h =
    let e : leb s b.end_sequence ≡ true = ground arith in
    rw e (ap (◌∷◌ b) (all-not_over s (b.end_sequence + 1) bs o.3 (omega arith)))

-- The iterator starts at the first batch that is not over.
starting_from-drop :
    (k s lo : ℕ) (bs : List BatchInfo)
    → Ordered lo bs
    → (j : ℕ) × ((starting_from k bs s).batch_idx ≡ k + j)
      × (j ≤ length bs)
      × (drop j bs ≡ not_over s bs)
unfolding starting_from
starting_from-drop k s lo [] o = (0, omega arith, omega arith, refl)
starting_from-drop k s lo (b ∷ bs) o = elim (Bool-cases (leb s b.end_sequence)) [
  | inl open' ↦
      let rest = all-not_over s (b.end_sequence + 1) bs o.3 (ground arith) in
      (0, ground arith, omega arith, rw open' (ap (◌∷◌ b) (sym rest)))
  | inr over ↦
      let (j, e, le, d) = starting_from-drop (k + 1) s (b.end_sequence + 1) bs o.3 in
      let next : starting_from k (b ∷ bs) s ≡ starting_from (k + 1) bs s = ground arith in
      (suc j, ap (λ it. it.batch_idx) next ∙ omega (arith, e), omega arith, rw over d)
]

drop-past : (i : ℕ) (bs : List BatchInfo) → length bs ≤ i → drop i bs ≡ []
drop-past zero [] h = refl
drop-past zero (b ∷ bs) h = absurd (omega arith)
drop-past (suc i) [] h = refl
drop-past (suc i) (b ∷ bs) h = drop-past i bs (omega arith)

drop-cons-lt :
    (i : ℕ) (bs : List BatchInfo) (b : BatchInfo) (rest : List BatchInfo)
    → drop i bs ≡ b ∷ rest
    → i < length bs
drop-cons-lt zero [] b rest e = cc
drop-cons-lt zero (x ∷ bs) b rest e = omega arith
drop-cons-lt (suc i) [] b rest e = cc
drop-cons-lt (suc i) (x ∷ bs) b rest e = omega (arith, drop-cons-lt i bs b rest e)

module _ {Conn : Type 0} (sqlite : Sqlite Conn) (codec : Codec) (crypto : Crypto)
    (config : ValidatorConfig Conn) where
  -- The batches of a list, one after the other.
  abbrev each_batch :
      BatchEnv
      → Env
      → List BatchInfo
      → ℕ
      → Validator Conn
      → Validator Conn × Result ℕ ValidatorError
  each_batch fetcher env [] total v = (v, ok total)
  each_batch fetcher env (b ∷ bs) total v =
      one_batch sqlite codec crypto config env (each_batch fetcher env bs) total v
        (fetcher.get_batch_by_path b.path)

  one_batch-ext :
      (env : Env) (f g : ℕ → Validator Conn → Validator Conn × Result ℕ ValidatorError) (total : ℕ)
      (v : Validator Conn) (r : Result (Option SignedBatch) String)
      → ((t : ℕ) (w : Validator Conn) → f t w ≡ g t w)
      → one_batch sqlite codec crypto config env f total v r
        ≡ one_batch sqlite codec crypto config env g total v r
  one_batch-ext env f g total v (err e) h = refl
  one_batch-ext env f g total v (ok none) h = h total v
  one_batch-ext env f g total v (ok (some batch)) h =
      go (ignored sqlite codec crypto config v (sync_batch sqlite codec crypto config env batch v))
    where
      go :
          (r : Validator Conn × Result ℕ ValidatorError)
          → synced_then sqlite codec crypto config f total r
            ≡ synced_then sqlite codec crypto config g total r
      go (w, ok n) = h (total + n) w
      go (w, err e) = refl

  -- One round, with what is left of the listing and what the later rounds do.
  sync_batches_step :
      (fuel : ℕ) (fetcher : BatchEnv) (env : Env) (index : BatchIndex) (it : BatchIterator)
      (total : ℕ) (v : Validator Conn) (left : List BatchInfo)
      → drop it.batch_idx index.batches ≡ left
      → ((t : ℕ) (w : Validator Conn)
          → sync_batches sqlite codec crypto config fuel fetcher env index
              (advance_to_next_batch it)
              t
              w
            ≡ each_batch fetcher env (drop (suc it.batch_idx) index.batches) t w)
      → sync_batches sqlite codec crypto config (suc fuel) fetcher env index it total v
        ≡ each_batch fetcher env left total v
  unfolding sync_batches is_exhausted current_batch
  sync_batches_step fuel fetcher env index it total v [] e later =
      let gone = get_elem?-drop-nil it.batch_idx index.batches e in
      elim (Bool-cases (is_exhausted it index)) [
        | inl done ↦ rw (done, sync_batches) refl
        | inr more ↦ rw (more, sync_batches) (rw gone refl)
      ]
  sync_batches_step fuel fetcher env index it total v (b ∷ bs) e later =
      let (here, rest) = get_elem?-drop-cons it.batch_idx index.batches b bs e in
      let lt = drop-cons-lt it.batch_idx index.batches b bs e in
      let more : is_exhausted it index ≡ false = ground arith in
      rw (more, sync_batches)
        (rw here (
          one_batch-ext env _ _ total v (fetcher.get_batch_by_path b.path)
            (λ t w. later t w ∙ ap (λ l. each_batch fetcher env l t w) rest)))

  sync_batches-each :
      (fuel : ℕ) (fetcher : BatchEnv) (env : Env) (index : BatchIndex) (it : BatchIterator)
      (total : ℕ) (v : Validator Conn)
      → length index.batches ≤ it.batch_idx + fuel
      → sync_batches sqlite codec crypto config fuel fetcher env index it total v
        ≡ each_batch fetcher env (drop it.batch_idx index.batches) total v
  unfolding sync_batches advance_to_next_batch
  sync_batches-each zero fetcher env index it total v h =
      let e = drop-past it.batch_idx index.batches (omega arith) in rw e refl
  sync_batches-each (suc fuel) fetcher env index it total v h =
      sync_batches_step fuel fetcher env index it total v _ refl λ t w.
        let next : it.batch_idx + 1 ≡ suc it.batch_idx = omega arith in
        sync_batches-each fuel fetcher env index (advance_to_next_batch it) t w (omega arith)
        ∙ ap (λ k. each_batch fetcher env (drop k index.batches) t w) next

  reads :
      (fuel : ℕ) (fetcher : BatchEnv) (env : Env) (v : Validator Conn)
      → fetcher.supports_batches ≡ true
      → sync_to_head_batched sqlite codec crypto config fuel fetcher env v
        ≡ by_listing sqlite codec crypto config fetcher env v fetcher.list_batches
  unfolding sync_to_head_batched
  reads fuel fetcher env v h = go fetcher.supports_batches _ _ h
    where
      go :
          (b : Bool) (x y : Validator Conn × Result ℕ ValidatorError)
          → b ≡ true
          → (if b then x else y) ≡ x
      go true x y e = refl
      go false x y e = cc

  -- What a run through the batches of a list leaves, with the messages counted so far: a batch that is
  -- found is synced whole, without a call for its withdrawals, and its messages are counted; one that is
  -- not found is passed over; the first error ends the run.
  abbrev pub VisitsAll :
      BatchEnv
      → Env
      → List BatchInfo
      → ℕ
      → Validator Conn
      → Validator Conn × Result ℕ ValidatorError
      → Type 0
  VisitsAll fetcher env [] total v r = r ≡ (v, ok total)
  VisitsAll fetcher env (b ∷ bs) total v r =
      ((e : String) × (fetcher.get_batch_by_path b.path ≡ err e) × (r ≡ (v, err (other e))))
      ⊎ ((fetcher.get_batch_by_path b.path ≡ ok none) × VisitsAll fetcher env bs total v r)
      ⊎ ((batch : SignedBatch) × (w : Validator Conn) × (fetcher.get_batch_by_path b.path
            ≡ ok (some batch))
          × (((e : ValidatorError) × (sync_batch sqlite codec crypto config env batch v
                  ≡ (w, err e))
                × (r ≡ (record w { withdrawals = v.withdrawals }, err e)))
              ⊎ ((n : ℕ) × (sync_batch sqlite codec crypto config env batch v ≡ (w, ok n))
                  × VisitsAll fetcher env bs (total + n) (record w { withdrawals = v.withdrawals })
                      r)))

  each_batch-VisitsAll :
      (fetcher : BatchEnv) (env : Env) (bs : List BatchInfo) (total : ℕ) (v : Validator Conn)
      → VisitsAll fetcher env bs total v (each_batch fetcher env bs total v)
  each_batch-VisitsAll fetcher env [] total v = refl
  each_batch-VisitsAll fetcher env (b ∷ bs) total v =
      go (each_batch-VisitsAll fetcher env bs) (fetcher.get_batch_by_path b.path) refl
    where
      synced :
          ((t : ℕ) (w : Validator Conn)
            → VisitsAll fetcher env bs t w (each_batch fetcher env bs t w))
          → (batch : SignedBatch) (x : Validator Conn × Result ℕ ValidatorError)
          → fetcher.get_batch_by_path b.path ≡ ok (some batch)
          → sync_batch sqlite codec crypto config env batch v ≡ x
          → VisitsAll fetcher env (b ∷ bs) total v (
              synced_then sqlite codec crypto config
                (each_batch fetcher env bs)
                total
                (ignored sqlite codec crypto config v x))
      synced later batch (w, ok n) e s = inr (
          inr
            (batch, w, e, inr (n, s, later (total + n) (record w { withdrawals = v.withdrawals }))))
      synced later batch (w, err x) e s = inr (inr (batch, w, e, inl (x, s, refl)))

      go :
          ((t : ℕ) (w : Validator Conn)
            → VisitsAll fetcher env bs t w (each_batch fetcher env bs t w))
          → (x : Result (Option SignedBatch) String) → fetcher.get_batch_by_path b.path ≡ x
          → VisitsAll fetcher env
              (b ∷ bs)
              total
              v
              (one_batch sqlite codec crypto config env (each_batch fetcher env bs) total v x)
      go later (err e) h = inl (e, h, refl)
      go later (ok none) h = inr (inl (h, later total v))
      go later (ok (some batch)) h = synced later batch _ h refl

  -- Where the fetcher lists its batches in order, a batched sync runs through the batches that are not
  -- over before the next sequence, in order and each once: a batch that is found is synced whole, one
  -- that is not found is passed over, and the first error ends it.
  pub sync_to_head_batched-each :
      (fuel : ℕ) (fetcher : BatchEnv) (env : Env) (v : Validator Conn) (listed : List BatchInfo)
      → fetcher.supports_batches ≡ true
      → fetcher.list_batches ≡ ok listed
      → Ordered 0 listed
      → VisitsAll fetcher env
          (not_over (next_sequence v.state) listed)
          0
          v
          (sync_to_head_batched sqlite codec crypto config fuel fetcher env v)
  unfolding sync_to_head_batched starting_at
  sync_to_head_batched-each fuel fetcher env v listed b l o =
      let index : BatchIndex = record { batches = listed } in
      let s = next_sequence v.state in
      let (j, e, le, d) = starting_from-drop 0 s 0 listed o in
      let it = starting_at index s in
      let same : it.batch_idx ≡ j = omega (arith, e) in
      let run = sync_batches-each (length listed) fetcher env index it 0 v (omega arith) in
      let whole =
        reads fuel fetcher env v b
        ∙ ap (by_listing sqlite codec crypto config fetcher env v) l
        ∙ run
        ∙ ap (λ k. each_batch fetcher env (drop k listed) 0 v) same
        ∙ ap (λ k. each_batch fetcher env k 0 v) d in
      subst (VisitsAll fetcher env (not_over s listed) 0 v) (sym whole)
        (each_batch-VisitsAll fetcher env (not_over s listed) 0 v)
