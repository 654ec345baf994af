-- ===== src/Validator/BatchIndex/Lookup.antt =====
-- Lookups by sequence agree with a scan of the list.
use synddb.Prelude.{
  ℕ, zero, suc, ◌+◌, ◌-◌, ◌≤◌, ◌<◌, ◌≡◌, refl, ◌∙◌, Bool, true, false, Option, none, List, [], ◌∷◌,
  arith, get_elem?, if◌then◌else◌, ltb, leb, ◌==◌, find, inl, inr, Bool-cases,
}
use synddb.Shared.BatchInfo.{BatchInfo, contains}
use synddb.Validator.BatchIndex.{
  BatchIndex, checked, find_batch_containing, find_first_batch_starting_at_or_after,
  find_first_batch_after,
}
use synddb.Validator.BatchIndex.Order.{Ordered}
use synddb.Validator.BatchIndex.Search.{
  prefix_length, Fails, Partitioned, partition_point-prefix_length,
}

abbrev at_most : ℕ → BatchInfo → Bool
at_most n b = leb b.start_sequence n

abbrev below : ℕ → BatchInfo → Bool
below n b = ltb b.start_sequence n

at_most-Fails : (n lo : ℕ) (bs : List BatchInfo) → Ordered lo bs → n < lo → Fails (at_most n) bs
at_most-Fails n lo [] o h = tt
at_most-Fails n lo (b ∷ bs) o h =
    (ground arith, at_most-Fails n (b.end_sequence + 1) bs o.3 (omega arith))

below-Fails : (n lo : ℕ) (bs : List BatchInfo) → Ordered lo bs → n ≤ lo → Fails (below n) bs
below-Fails n lo [] o h = tt
below-Fails n lo (b ∷ bs) o h =
    (ground arith, below-Fails n (b.end_sequence + 1) bs o.3 (omega arith))

pub at_most-Partitioned :
    (n lo : ℕ) (bs : List BatchInfo) → Ordered lo bs → Partitioned (at_most n) bs
at_most-Partitioned n lo [] o = tt
at_most-Partitioned n lo (b ∷ bs) o = elim (Bool-cases (at_most n b)) [
  | inl e ↦ inl (e, at_most-Partitioned n (b.end_sequence + 1) bs o.3)
  | inr e ↦ inr (e, at_most-Fails n (b.end_sequence + 1) bs o.3 (ground arith))
]

below-Partitioned : (n lo : ℕ) (bs : List BatchInfo) → Ordered lo bs → Partitioned (below n) bs
below-Partitioned n lo [] o = tt
below-Partitioned n lo (b ∷ bs) o = elim (Bool-cases (below n b)) [
  | inl e ↦ inl (e, below-Partitioned n (b.end_sequence + 1) bs o.3)
  | inr e ↦ inr (e, below-Fails n (b.end_sequence + 1) bs o.3 (ground arith))
]

-- The candidate that the lookup checks, as a function of the number of batches before the point.
abbrev candidate : ℕ → ℕ → List BatchInfo → Option BatchInfo
candidate n k bs = if k == 0 then none else checked n (get_elem? bs (k - 1))

find_below :
    (n lo : ℕ) (bs : List BatchInfo) → Ordered lo bs → n < lo → find (λ b. contains b n) bs ≡ none
find_below n lo [] o h = refl
find_below n lo (b ∷ bs) o h = ground (arith, find_below n (b.end_sequence + 1) bs o.3)

prefix_at_most_below :
    (n lo : ℕ) (bs : List BatchInfo) → Ordered lo bs → n < lo → prefix_length (at_most n) bs ≡ 0
prefix_at_most_below n lo [] o h = refl
prefix_at_most_below n lo (b ∷ bs) o h = ground arith

-- Beyond the end of the head, the candidate of the tail is that of the list.
candidate_cons :
    (n k : ℕ) (b : BatchInfo) (bs : List BatchInfo)
    → b.end_sequence < n
    → candidate n (suc k) (b ∷ bs) ≡ candidate n k bs
candidate_cons n zero b bs h = ground arith
candidate_cons n (suc k) b bs h =
    let e : suc (suc k) - 1 ≡ suc k = omega arith in
    let e' : suc k - 1 ≡ k = omega arith in rw (e, e') (ground arith)

candidate-find :
    (n lo : ℕ) (bs : List BatchInfo)
    → Ordered lo bs
    → candidate n (prefix_length (at_most n) bs) bs ≡ find (λ b. contains b n) bs
candidate-find n lo [] o = refl
candidate-find n lo (b ∷ bs) o = elim (Bool-cases (ltb b.end_sequence n)) [
  | inl beyond ↦
      let past : b.end_sequence < n = ground arith in
      let started : at_most n b ≡ true = ground arith in
      let miss : leb n b.end_sequence ≡ false = ground arith in
      let ih = candidate-find n (b.end_sequence + 1) bs o.3 in
      rw (started, miss) (candidate_cons n (prefix_length (at_most n) bs) b bs past ∙ ih)
  | inr within ↦ ground (
    arith,
    prefix_at_most_below n (b.end_sequence + 1) bs o.3,
    find_below n (b.end_sequence + 1) bs o.3,
  )
]

-- On a listing in order the binary search for a sequence returns the batch that a scan finds, and
-- none exactly where the scan finds none.
pub find_batch_containing-find :
    (index : BatchIndex) (sequence : ℕ)
    → Ordered 0 index.batches
    → find_batch_containing index sequence ≡ find (λ b. contains b sequence) index.batches
unfolding find_batch_containing
find_batch_containing-find index sequence o =
    rw
      (partition_point-prefix_length (at_most sequence) index.batches
        (at_most-Partitioned sequence 0 index.batches o))
      (candidate-find sequence 0 index.batches o)

first_failing :
    (p : BatchInfo → Bool) (bs : List BatchInfo)
    → Partitioned p bs
    → get_elem? bs (prefix_length p bs) ≡ find (λ b. if p b then false else true) bs
first_failing p [] h = refl
first_failing p (b ∷ bs) (inl h) = rw h.0 (first_failing p bs h.1)
first_failing p (b ∷ bs) (inr h) = rw h.0

-- On a listing in order, the two searches for a later batch return the first batch that starts at
-- or after the sequence, and the first that starts after it.
find_first_batch_lem :
    (index : BatchIndex) (sequence : ℕ)
    → Ordered 0 index.batches
    → (find_first_batch_starting_at_or_after index sequence
        ≡ find (λ b. leb sequence b.start_sequence) index.batches)
      × (find_first_batch_after index sequence
          ≡ find (λ b. ltb sequence b.start_sequence) index.batches)
unfolding find_first_batch_starting_at_or_after find_first_batch_after
find_first_batch_lem index sequence o = (
  rw
      (partition_point-prefix_length (below sequence) index.batches
        (below-Partitioned sequence 0 index.batches o))
      (first_failing (below sequence) index.batches (below-Partitioned sequence 0 index.batches o)
        ∙ find_same _ _ index.batches (λ b. ground arith)),
  rw
      (partition_point-prefix_length (at_most sequence) index.batches
        (at_most-Partitioned sequence 0 index.batches o))
      (first_failing (at_most sequence) index.batches
          (at_most-Partitioned sequence 0 index.batches o)
        ∙ find_same _ _ index.batches (λ b. ground arith)),
)
  where
    find_same :
        (p q : BatchInfo → Bool) (bs : List BatchInfo)
        → ((b : BatchInfo) → p b ≡ q b)
        → find p bs ≡ find q bs
    find_same p q [] h = refl
    find_same p q (b ∷ bs) h = rw (h b, find_same p q bs h)
