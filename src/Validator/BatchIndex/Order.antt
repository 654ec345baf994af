-- ===== src/Validator/BatchIndex/Order.antt =====
-- What a listing in order is, and what it covers.
use synddb.Prelude.{
  ℕ, ◌+◌, ◌≤◌, ◌<◌, ◌≡◌, refl, Bool, false, ◌||◌, List, [], ◌∷◌, arith, ltb, u64_mod,
}
use synddb.Shared.BatchInfo.{BatchInfo, contains}

-- From `lo` on: no batch is empty, each begins after the one before it ends, none ends at the
-- largest u64.
abbrev pub Ordered : ℕ → List BatchInfo → Type 0
Ordered lo [] = Unit {0}
Ordered lo (b ∷ bs) =
    (lo ≤ b.start_sequence)
    × (b.start_sequence ≤ b.end_sequence)
    × (b.end_sequence + 1 < u64_mod)
    × Ordered (b.end_sequence + 1) bs

-- Some batch contains the sequence.
abbrev pub covers : List BatchInfo → ℕ → Bool
covers [] n = false
covers (b ∷ bs) n = contains b n || covers bs n

-- Some batch begins after the sequence.
abbrev pub starts_after : List BatchInfo → ℕ → Bool
starts_after [] n = false
starts_after (b ∷ bs) n = ltb n b.start_sequence || starts_after bs n

pub covers_below : (lo n : ℕ) (bs : List BatchInfo) → Ordered lo bs → n < lo → covers bs n ≡ false
covers_below lo n [] o h = refl
covers_below lo n (b ∷ bs) o h = ground (arith, covers_below (b.end_sequence + 1) n bs o.3)
