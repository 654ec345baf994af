-- ===== src/Validator/BatchIndex/Start.antt =====
-- Where the iterator starts, and what it visits from there.
use synddb.Prelude.{
  ℕ, zero, suc, ◌+◌, ◌-◌, ◌≤◌, ◌<◌, ◌≡◌, refl, sym, ap, ◌∙◌, true, false, List, [], ◌∷◌, ◌++◌,
  arith, length, drop, filter, sum, map, ltb, leb, filter-append, length-filter-le, Bool-cases, inl,
  inr,
}
use synddb.Shared.BatchInfo.{BatchInfo, len}
use synddb.Validator.BatchIndex.{
  BatchIndex, BatchIterator, starting_from, starting_at, total_messages,
}
use synddb.Validator.BatchIndex.Order.{Ordered}
use synddb.Validator.BatchIndex.Iterator.{
  range, sequences, remaining, Within, remaining-zero, visit, visit-remaining, length-range-append,
  get_elem?-drop-cons,
}

abbrev from : ℕ → List ℕ → List ℕ
from s = filter (λ n. leb s n)

from_range_all : (s a n : ℕ) → s ≤ a → from s (range a n) ≡ range a n
from_range_all s a zero h = refl
from_range_all s a (suc n) h = ground (arith, from_range_all s (a + 1) n)

from_range_none : (s a n : ℕ) → a + n ≤ s → from s (range a n) ≡ []
from_range_none s a zero h = refl
from_range_none s a (suc n) h = ground (arith, from_range_none s (a + 1) n)

from_range : (s a n : ℕ) → a ≤ s → s ≤ a + n → from s (range a n) ≡ range s (a + n - s)
from_range s a zero h k = let e : a + 0 - s ≡ 0 = omega arith in rw e
from_range s a (suc n) h k = elim (Bool-cases (leb s a)) [
  | inl same ↦
      let e : s ≡ a = ground arith in
      let c : a + suc n - s ≡ suc n = omega arith in
      rw c (from_range_all s a (suc n) (omega arith) ∙ ap (λ t. range t (suc n)) (sym e))
  | inr beyond ↦
      let c : a + 1 + n - s ≡ a + suc n - s = omega arith in
      rw beyond (from_range s (a + 1) n (ground arith) (omega arith) ∙ ap (range s) c)
]

from_sequences_all :
    (s lo : ℕ) (bs : List BatchInfo) → Ordered lo bs → s ≤ lo → from s (sequences bs) ≡ sequences bs
from_sequences_all s lo [] o h = refl
from_sequences_all s lo (b ∷ bs) o h =
    let n = b.end_sequence + 1 - b.start_sequence in
    filter-append (λ n. leb s n) (range b.start_sequence n) (sequences bs)
    ∙ ap (λ t. t ++ from s (sequences bs)) (from_range_all s b.start_sequence n (omega arith))
    ∙ ap (◌++◌ (range b.start_sequence n))
        (from_sequences_all s (b.end_sequence + 1) bs o.3 (omega arith))

-- The iterator stands at the first covered sequence from `s` on.
record Starts (all : List BatchInfo) (s : ℕ) (bs : List BatchInfo) (it : BatchIterator)
    : Type 0 where
  left : List BatchInfo
  lo : ℕ
  dropped : drop it.batch_idx all ≡ left
  ordered : Ordered lo left
  within : Within it.message_offset left
  rest : remaining it.message_offset left ≡ from s (sequences bs)

starting_from-Starts :
    (all : List BatchInfo) (i lo s : ℕ) (bs : List BatchInfo)
    → drop i all ≡ bs
    → Ordered lo bs
    → Starts all s bs (starting_from i bs s)
unfolding starting_from
starting_from-Starts all i lo s [] e o = record {
  left = [];
  lo = 0;
  dropped = e;
  ordered = tt;
  within = tt;
  rest = refl;
}
starting_from-Starts all i lo s (b ∷ bs) e o = elim (Bool-cases (ltb s b.start_sequence)) [
  | inl before ↦
      let c : leb b.start_sequence s ≡ false = ground arith in
      rw (c, before)
        (record {
          left = b ∷ bs;
          lo = b.start_sequence;
          dropped = e;
          ordered = (omega arith, o.1, o.2, o.3);
          within = omega arith;
          rest =
              remaining-zero (b ∷ bs)
              ∙ sym (
                  from_sequences_all s b.start_sequence (b ∷ bs) (omega arith, o.1, o.2, o.3)
                    (ground arith));
        })
  | inr started ↦ elim (Bool-cases (leb s b.end_sequence)) [
    | inl inside ↦
        let c : leb b.start_sequence s ≡ true = ground arith in
        rw (c, inside) (inside_batch (ground arith) (ground arith))
    | inr past ↦
        let c : leb b.start_sequence s ≡ true = ground arith in
        let up : i + 1 ≡ suc i = omega arith in
        let ih =
          starting_from-Starts all (i + 1) (b.end_sequence + 1) s bs
            (ap (λ t. drop t all) up ∙ (get_elem?-drop-cons i all b bs e).1) o.3 in
        rw (c, past, started)
          (record {
            left = ih.left;
            lo = ih.lo;
            dropped = ih.dropped;
            ordered = ih.ordered;
            within = ih.within;
            rest = ih.rest ∙ sym (outside (ground arith));
          })
  ]
]
  where
    n : ℕ
    n = b.end_sequence + 1 - b.start_sequence

    outside : b.end_sequence < s → from s (sequences (b ∷ bs)) ≡ from s (sequences bs)
    outside h =
        filter-append (λ n. leb s n) (range b.start_sequence n) (sequences bs)
        ∙ ap (λ t. t ++ from s (sequences bs)) (from_range_none s b.start_sequence n (omega arith))

    inside_batch :
        b.start_sequence ≤ s
        → s ≤ b.end_sequence
        → Starts all s (b ∷ bs) (record { batch_idx = i; message_offset = s - b.start_sequence })
    inside_batch h k = record {
      left = b ∷ bs;
      lo = lo;
      dropped = e;
      ordered = o;
      within = omega arith;
      rest =
          let a : b.start_sequence + (s - b.start_sequence) ≡ s = omega arith in
          let c : n - (s - b.start_sequence) ≡ b.start_sequence + n - s = omega arith in
          ap₂' a c
          ∙ ap (λ t. t ++ sequences bs) (sym (from_range s b.start_sequence n h (omega arith)))
          ∙ ap (◌++◌ (from s (range b.start_sequence n)))
              (sym (from_sequences_all s (b.end_sequence + 1) bs o.3 (omega arith)))
          ∙ sym (filter-append (λ n. leb s n) (range b.start_sequence n) (sequences bs));
    }
      where
        ap₂' :
            {a a' c c' : ℕ}
            → a ≡ a'
            → c ≡ c'
            → range a c ++ sequences bs ≡ range a' c' ++ sequences bs
        ap₂' p q = λ i. range (p i) (q i) ++ sequences bs

-- On a listing in order, `total_messages` is the number of covered sequences.
pub total_messages-length :
    (index : BatchIndex)
    → Ordered 0 index.batches
    → total_messages index ≡ length (sequences index.batches)
unfolding total_messages
total_messages-length index o = go 0 index.batches o
  where
    go : (lo : ℕ) (bs : List BatchInfo) → Ordered lo bs → sum (map len bs) ≡ length (sequences bs)
    go lo [] o = refl
    go lo (b ∷ bs) o =
        let full : len b ≡ b.end_sequence + 1 - b.start_sequence = ground arith in
        omega (
          arith,
          full,
          go (b.end_sequence + 1) bs o.3,
          length-range-append b.start_sequence (b.end_sequence + 1 - b.start_sequence) bs,
        )

-- On a listing in order, reading and advancing from `starting_at` visits exactly the covered
-- sequences from the given one on, each once, in order; `total_messages` rounds and one are enough.
pub visit-starting_at :
    (index : BatchIndex) (s fuel : ℕ)
    → Ordered 0 index.batches
    → total_messages index < fuel
    → visit fuel (starting_at index s) index ≡ filter (λ n. leb s n) (sequences index.batches)
unfolding starting_at
visit-starting_at index s fuel o f =
    let st = starting_from-Starts index.batches 0 0 s index.batches refl o in
    visit-remaining fuel index _ _ st.lo st.left st.dropped st.ordered st.within (
      omega (
        arith,
        ap length st.rest,
        length-filter-le (λ n. leb s n) (sequences index.batches),
        total_messages-length index o,
      ))
    ∙ st.rest
