-- ===== src/Validator/BatchIndex/Iterator.antt =====
-- The iterator visits every covered sequence once, in order.
use synddb.Prelude.{
  ℕ, zero, suc, ◌+◌, ◌-◌, ◌%◌, ◌≤◌, ◌<◌, ◌≡◌, refl, sym, ap, ◌∙◌, true, false, none, some, List, [],
  ◌∷◌, ◌++◌, arith, length, get_elem?, drop, ltb, leb, Bool-cases, inl, inr, u64_mod,
}
use synddb.Shared.BatchInfo.{BatchInfo, len}
use synddb.Validator.BatchIndex.{BatchIndex, BatchIterator, current_sequence, advance}
use synddb.Validator.BatchIndex.Order.{Ordered}

abbrev pub range : ℕ → ℕ → List ℕ
range a zero = []
range a (suc n) = a ∷ range (a + 1) n

-- All covered sequences, batch by batch.
abbrev pub sequences : List BatchInfo → List ℕ
sequences [] = []
sequences (b ∷ bs) = range b.start_sequence (b.end_sequence + 1 - b.start_sequence) ++ sequences bs

-- The sequences that a client sees who reads the current one and advances, until none is left.
unfoldable pub visit : ℕ → BatchIterator → BatchIndex → List ℕ
visit zero it index = []
visit (suc fuel) it index =
    let rest = visit fuel (advance it index).0 index in
    elim (current_sequence it index) [ none ↦ [] | some n ↦ n ∷ rest ]

-- What is left to visit from an offset in the first of the batches.
abbrev pub remaining : ℕ → List BatchInfo → List ℕ
remaining off [] = []
remaining off (b ∷ bs) =
    range (b.start_sequence + off) (b.end_sequence + 1 - b.start_sequence - off) ++ sequences bs

pub get_elem?-drop-nil : (i : ℕ) (bs : List BatchInfo) → drop i bs ≡ [] → get_elem? bs i ≡ none
get_elem?-drop-nil zero [] e = refl
get_elem?-drop-nil zero (x ∷ bs) e = cc
get_elem?-drop-nil (suc i) [] e = refl
get_elem?-drop-nil (suc i) (x ∷ bs) e = get_elem?-drop-nil i bs e

pub get_elem?-drop-cons :
    (i : ℕ) (bs : List BatchInfo) (b : BatchInfo) (rest : List BatchInfo)
    → drop i bs ≡ b ∷ rest
    → (get_elem? bs i ≡ some b) × (drop (suc i) bs ≡ rest)
get_elem?-drop-cons zero [] b rest e = cc
get_elem?-drop-cons zero (x ∷ bs) b rest e = (ground arith, ground arith)
get_elem?-drop-cons (suc i) [] b rest e = cc
get_elem?-drop-cons (suc i) (x ∷ bs) b rest e = get_elem?-drop-cons i bs b rest e

range_step : (a n : ℕ) → 0 < n → range a n ≡ a ∷ range (a + 1) (n - 1)
range_step a zero h = absurd (omega arith)
range_step a (suc n) h = let e : suc n - 1 ≡ n = omega arith in rw e

pub remaining-zero : (bs : List BatchInfo) → remaining 0 bs ≡ sequences bs
remaining-zero [] = refl
remaining-zero (b ∷ bs) =
    let e : b.start_sequence + 0 ≡ b.start_sequence = omega arith in
    let e' : b.end_sequence + 1 - b.start_sequence - 0 ≡ b.end_sequence + 1 - b.start_sequence =
      omega arith in
    rw (e, e')

-- The offset stays within the batch that is next.
abbrev pub Within : ℕ → List BatchInfo → Type 0
Within off [] = Unit {0}
Within off (b ∷ bs) = b.start_sequence + off ≤ b.end_sequence

pub Within-zero : (lo : ℕ) (bs : List BatchInfo) → Ordered lo bs → Within 0 bs
Within-zero lo [] o = tt
Within-zero lo (b ∷ bs) o = omega arith

abbrev at : ℕ → ℕ → BatchIterator
at i off = record { batch_idx = i; message_offset = off }

module _ (index : BatchIndex) (i off : ℕ) (b : BatchInfo)
    (here : get_elem? index.batches i ≡ some b) where
  current_sequence-at :
      b.start_sequence + off < u64_mod
      → current_sequence (at i off) index ≡ some (b.start_sequence + off)
  unfolding current_sequence
  current_sequence-at h =
      let e : (b.start_sequence + off) % u64_mod ≡ b.start_sequence + off = omega arith in
      rw (here, current_sequence) (ap some e)

  advance_within : off + 1 < len b → (advance (at i off) index).0 ≡ at i (off + 1)
  unfolding advance
  advance_within h =
      let e : leb (len b) (off + 1) ≡ false = ground arith in rw (here, advance) (rw e)

  advance_beyond : len b ≤ off + 1 → (advance (at i off) index).0 ≡ at (suc i) 0
  unfolding advance
  advance_beyond h =
      let e : leb (len b) (off + 1) ≡ true = ground arith in
      let e' : i + 1 ≡ suc i = omega arith in rw (here, advance) (rw (e, e'))

-- One round of `visit` at a batch.
visit_step :
    (fuel n : ℕ) (it next : BatchIterator) (index : BatchIndex)
    → current_sequence it index ≡ some n
    → (advance it index).0 ≡ next
    → visit (suc fuel) it index ≡ n ∷ visit fuel next index
unfolding visit
visit_step fuel n it next index c a = rw (c, visit) (rw a)

visit_end :
    (fuel : ℕ) (index : BatchIndex) (i off : ℕ)
    → get_elem? index.batches i ≡ none
    → visit fuel (at i off) index ≡ []
unfolding visit current_sequence
visit_end zero index i off e = refl
visit_end (suc fuel) index i off e = rw (e, current_sequence, visit)

pub length-range-append :
    (a n : ℕ) (bs : List BatchInfo) → length (range a n ++ sequences bs) ≡ n + length (sequences bs)
length-range-append a zero bs = omega arith
length-range-append a (suc n) bs = omega (arith, length-range-append (a + 1) n bs)

pub visit-remaining :
    (fuel : ℕ) (index : BatchIndex) (i off lo : ℕ) (left : List BatchInfo)
    → drop i index.batches ≡ left
    → Ordered lo left
    → Within off left
    → length (remaining off left) < fuel
    → visit fuel (at i off) index ≡ remaining off left
visit-remaining zero index i off lo left e o w f = absurd (omega arith)
visit-remaining (suc fuel) index i off lo [] e o w f =
    visit_end (suc fuel) index i off (get_elem?-drop-nil i index.batches e)
visit-remaining (suc fuel) index i off lo (b ∷ bs) e o w f =
    let here = get_elem?-drop-cons i index.batches b bs e in
    let size = b.end_sequence + 1 - b.start_sequence - off in
    let full : len b ≡ b.end_sequence + 1 - b.start_sequence = ground arith in
    let now = current_sequence-at index i off b here.0 (omega arith) in
    let counted = length-range-append (b.start_sequence + off) size bs in
    let first = range_step (b.start_sequence + off) size (omega arith) in
    let split : remaining off (b ∷ bs)
        ≡ (b.start_sequence + off)
          ∷ (range (b.start_sequence + off + 1) (size - 1) ++ sequences bs) =
      ap (λ t. t ++ sequences bs) first in
    elim (Bool-cases (ltb (off + 1) (len b))) [
      | inl more ↦
          let lt : off + 1 < len b = ground arith in
          let a : b.start_sequence + (off + 1) ≡ b.start_sequence + off + 1 = omega arith in
          let c : b.end_sequence + 1 - b.start_sequence - (off + 1) ≡ size - 1 = omega arith in
          let same : remaining (off + 1) (b ∷ bs)
              ≡ range (b.start_sequence + off + 1) (size - 1) ++ sequences bs =
            rw (a, c) refl in
          let counted' =
            length-range-append (b.start_sequence + (off + 1))
              (b.end_sequence + 1 - b.start_sequence - (off + 1)) bs in
          visit_step fuel _ (at i off) (at i (off + 1)) index now
            (advance_within index i off b here.0 lt)
          ∙ ap (◌∷◌ (b.start_sequence + off)) (
              visit-remaining fuel index i (off + 1) lo (b ∷ bs) e o (omega arith) (omega arith)
              ∙ same)
          ∙ sym split
      | inr last ↦
          let le : len b ≤ off + 1 = ground arith in
          let one : size - 1 ≡ 0 = omega arith in
          let same : range (b.start_sequence + off + 1) (size - 1) ++ sequences bs ≡ sequences bs =
            rw one refl in
          let whole = remaining-zero bs in
          visit_step fuel _ (at i off) (at (suc i) 0) index now
            (advance_beyond index i off b here.0 le)
          ∙ ap (◌∷◌ (b.start_sequence + off)) (
              visit-remaining fuel index (suc i) 0 (b.end_sequence + 1) bs here.1 o.3
                (Within-zero (b.end_sequence + 1) bs o.3) (omega (arith, ap length whole))
              ∙ whole
              ∙ sym same)
          ∙ sym split
    ]
