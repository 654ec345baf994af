-- ===== src/Validator/BatchIndex/Gaps.antt =====
-- `detect_gaps` reports exactly what is missing.
use synddb.Prelude.{
  ℕ, ◌+◌, ◌%◌, ◌≤◌, ◌≡◌, Bool, false, not, ◌&&◌, ◌||◌, List, [], ◌∷◌, arith, ltb, leb, u64_mod,
}
use synddb.Shared.BatchInfo.{BatchInfo}
use synddb.Validator.BatchIndex.{BatchIndex, gaps_from, detect_gaps}
use synddb.Validator.BatchIndex.Order.{Ordered, covers, starts_after, covers_below}

-- The sequence lies in one of the gaps `(from, to)`, where `to` is present.
abbrev pub in_gaps : List (ℕ × ℕ) → ℕ → Bool
in_gaps [] n = false
in_gaps ((a, b) ∷ gs) n = (leb a n && ltb n b) || in_gaps gs n

-- Past the first batch that counts, the gaps begin where the last batch ended.
gaps_from_lem :
    (from expected n : ℕ) (bs : List BatchInfo)
    → Ordered expected bs
    → from ≤ expected
    → in_gaps (gaps_from from expected bs) n
      ≡ (leb expected n && not (covers bs n) && starts_after bs n)
unfolding gaps_from
gaps_from_lem from expected n [] o h = ground arith
gaps_from_lem from expected n (b ∷ bs) o h =
    let e : (b.end_sequence + 1) % u64_mod ≡ b.end_sequence + 1 = omega arith in
    ground (
      arith,
      e,
      gaps_from_lem from (b.end_sequence + 1) n bs o.3,
      covers_below (b.end_sequence + 1) n bs o.3,
    )

gaps_from_start :
    (from lo n : ℕ) (bs : List BatchInfo)
    → Ordered lo bs
    → in_gaps (gaps_from from from bs) n ≡ (leb from n && not (covers bs n) && starts_after bs n)
unfolding gaps_from
gaps_from_start from lo n [] o = ground arith
gaps_from_start from lo n (b ∷ bs) o =
    let e : (b.end_sequence + 1) % u64_mod ≡ b.end_sequence + 1 = omega arith in
    ground (
      arith,
      e,
      gaps_from_start from (b.end_sequence + 1) n bs o.3,
      gaps_from_lem from (b.end_sequence + 1) n bs o.3,
      covers_below (b.end_sequence + 1) n bs o.3,
    )

-- On a listing in order, a sequence lies in a reported gap exactly when it is at or after the
-- start, in no batch, and before the start of some batch.
pub detect_gaps_exact :
    (index : BatchIndex) (from n : ℕ)
    → Ordered 0 index.batches
    → in_gaps (detect_gaps index from) n
      ≡ (leb from n && not (covers index.batches n) && starts_after index.batches n)
unfolding detect_gaps
detect_gaps_exact index from n o = gaps_from_start from 0 n index.batches o
