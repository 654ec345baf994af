-- ===== src/Validator/BatchIndex/Tests.antt =====
-- The batch index at concrete listings.
use synddb.Prelude.{◌≡◌, refl, not, ◌&&◌, [], ◌∷◌, some, none, arith, find, filter, leb, ◌<◌}
use synddb.Shared.BatchInfo
use synddb.Shared.BatchInfo.{BatchInfo, contains}
use synddb.Validator.BatchIndex.{
  BatchIndex, find_batch_containing, find_batch_index, detect_gaps, starting_at, total_messages,
  current_sequence, advance,
}
use synddb.Validator.BatchIndex.Order.{Ordered, covers, starts_after}
use synddb.Validator.BatchIndex.Lookup.{find_batch_containing-find}
use synddb.Validator.BatchIndex.Gaps.{in_gaps, detect_gaps_exact}
use synddb.Validator.BatchIndex.Iterator.{visit, sequences}
use synddb.Validator.BatchIndex.Start.{total_messages-length, visit-starting_at}

-- 1 to 3, then a gap, 6 to 7, and 8 alone.
abbrev index : BatchIndex
index = record {
  batches = BatchInfo.new 1 3 "a" ∷ BatchInfo.new 6 7 "b" ∷ BatchInfo.new 8 8 "c" ∷ [];
}

index-Ordered : Ordered 0 index.batches
index-Ordered = omega arith

find_hit : find_batch_containing index 7 ≡ some (BatchInfo.new 6 7 "b")
unfolding find_batch_containing
find_hit = refl

find_miss : find_batch_containing index 5 ≡ none
unfolding find_batch_containing
find_miss = refl

find_index : find_batch_index index 8 ≡ some 2
unfolding find_batch_index
find_index = refl

gaps : detect_gaps index 2 ≡ (4, 6) ∷ []
unfolding detect_gaps
gaps = refl

visit_runs : visit 9 (starting_at index 3) index ≡ 3 ∷ 6 ∷ 7 ∷ 8 ∷ []
unfolding visit starting_at current_sequence advance
visit_runs = refl

find_batch_containing-find_example :
    find_batch_containing index 5 ≡ find (λ b. contains b 5) index.batches
find_batch_containing-find_example = find_batch_containing-find index 5 index-Ordered

detect_gaps_exact_example :
    in_gaps (detect_gaps index 2) 5
    ≡ (leb 2 5 && not (covers index.batches 5) && starts_after index.batches 5)
detect_gaps_exact_example = detect_gaps_exact index 2 5 index-Ordered

visit-starting_at_example :
    visit 9 (starting_at index 3) index ≡ filter (λ n. leb 3 n) (sequences index.batches)
visit-starting_at_example = visit-starting_at index 3 9 index-Ordered enough
  where
    enough : total_messages index < 9
    enough = omega (arith, total_messages-length index index-Ordered)
