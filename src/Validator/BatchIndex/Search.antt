-- ===== src/Validator/BatchIndex/Search.antt =====
-- The binary search finds the number of leading batches that satisfy a partitioned predicate.
use synddb.Prelude.{
  ℕ, zero, suc, ◌+◌, ◌-◌, ◌/◌, ◌≤◌, ◌<◌, ◌≡◌, refl, Bool, true, false, List, [], ◌∷◌, arith, length,
  if◌then◌else◌, ltb, ◌⊎◌, inl, inr, Bool-cases,
}
use synddb.Shared.BatchInfo.{BatchInfo}
use synddb.Validator.BatchIndex.{search_base, partition_point, holds_at}

-- The number of leading elements that satisfy the predicate.
abbrev pub prefix_length : (BatchInfo → Bool) → List BatchInfo → ℕ
prefix_length p [] = 0
prefix_length p (b ∷ bs) = let rest = prefix_length p bs in if p b then suc rest else 0

-- Once the predicate fails it stays false.
abbrev pub Fails : (BatchInfo → Bool) → List BatchInfo → Type 0
Fails p [] = Unit {0}
Fails p (b ∷ bs) = (p b ≡ false) × Fails p bs

abbrev pub Partitioned : (BatchInfo → Bool) → List BatchInfo → Type 0
Partitioned p [] = Unit {0}
Partitioned p (b ∷ bs) = ((p b ≡ true) × Partitioned p bs) ⊎ ((p b ≡ false) × Fails p bs)

pub prefix_length-le : (p : BatchInfo → Bool) (bs : List BatchInfo) → prefix_length p bs ≤ length bs
prefix_length-le p [] = omega arith
prefix_length-le p (b ∷ bs) = ground (arith, prefix_length-le p bs)

holds_at-Fails :
    (p : BatchInfo → Bool) (bs : List BatchInfo) (i : ℕ) → Fails p bs → holds_at p bs i ≡ false
holds_at-Fails p [] i f = refl
holds_at-Fails p (b ∷ bs) zero f = f.0
holds_at-Fails p (b ∷ bs) (suc i) f = holds_at-Fails p bs i f.1

pub holds_at-ltb :
    (p : BatchInfo → Bool) (bs : List BatchInfo) (i : ℕ)
    → Partitioned p bs
    → holds_at p bs i ≡ ltb i (prefix_length p bs)
holds_at-ltb p [] i h = ground arith
holds_at-ltb p (b ∷ bs) zero h = ground arith
holds_at-ltb p (b ∷ bs) (suc i) (inl h) = ground (arith, holds_at-ltb p bs i h.1)
holds_at-ltb p (b ∷ bs) (suc i) (inr h) = ground (arith, holds_at-Fails p bs i h.1)

-- What the loop knows of the answer `k`.
record Between (k base size : ℕ) : Type 0 where
  some_left : 0 < size
  above : (base ≡ 0) ⊎ (base < k)
  below : k ≤ base + size

search_base-Between :
    (fuel : ℕ) (p : BatchInfo → Bool) (bs : List BatchInfo) (base size : ℕ)
    → Partitioned p bs
    → size ≤ fuel
    → Between (prefix_length p bs) base size
    → Between (prefix_length p bs) (search_base fuel p bs base size) 1
unfolding search_base
search_base-Between zero p bs base size h f b = absurd (omega (arith, b.some_left))
search_base-Between (suc fuel) p bs base size h f b = elim (Bool-cases (ltb 1 size)) [
  | inr one ↦ rw one (record {
    some_left = omega arith;
    above = b.above;
    below = ground (arith, b.some_left, b.below);
  })
  | inl more ↦ rw more (
      search_base-Between fuel p bs
        (if holds_at p bs (base + size / 2) then base + size / 2 else base) (size - size / 2) h
        (ground arith) (step (holds_at-ltb p bs (base + size / 2) h)))
]
  where
    step :
        holds_at p bs (base + size / 2) ≡ ltb (base + size / 2) (prefix_length p bs)
        → Between
            (prefix_length p bs)
            (if holds_at p bs (base + size / 2) then base + size / 2 else base)
            (size - size / 2)
    step e = record {
      some_left = omega (arith, b.some_left);
      above = ground (arith, b.above);
      below = ground (arith, b.below);
    }

-- The loop ends at the last leading element, or at 0.
pub search_base_lem :
    (p : BatchInfo → Bool) (b : BatchInfo) (bs : List BatchInfo)
    → Partitioned p (b ∷ bs)
    → let base = search_base (length (b ∷ bs)) p (b ∷ bs) 0 (length (b ∷ bs)) in
      ((base ≡ 0) ⊎ (base < prefix_length p (b ∷ bs))) × (prefix_length p (b ∷ bs) ≤ base + 1)
search_base_lem p b bs h =
    let s =
      search_base-Between (length (b ∷ bs)) p (b ∷ bs) 0 (length (b ∷ bs)) h (omega arith) (record {
        some_left = omega arith;
        above = inl refl;
        below = omega (arith, prefix_length-le p (b ∷ bs));
      }) in
    (s.above, s.below)

-- On a list that the predicate partitions, `partition_point` is the number of elements before the
-- first failure.
pub partition_point-prefix_length :
    (p : BatchInfo → Bool) (bs : List BatchInfo)
    → Partitioned p bs
    → partition_point p bs ≡ prefix_length p bs
unfolding partition_point
partition_point-prefix_length p [] h = refl
partition_point-prefix_length p (b ∷ bs) h =
    let base = search_base (length (b ∷ bs)) p (b ∷ bs) 0 (length (b ∷ bs)) in
    ground (arith, search_base_lem p b bs h, holds_at-ltb p (b ∷ bs) base h)
