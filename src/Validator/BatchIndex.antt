-- ===== src/Validator/BatchIndex.antt =====
-- crates/synddb-validator/src/sync/batch_index.rs: the cached list of batches and its iterator.
pub mod Order
pub mod Search
pub mod Lookup
pub mod Gaps
pub mod Iterator
pub mod Start
pub mod Tests
use synddb.Prelude.{
  ℕ, zero, suc, ◌+◌, ◌-◌, ◌/◌, ◌%◌, Bool, true, false, Option, none, some, List, [], ◌∷◌, ltb, leb,
  ◌==◌, if◌then◌else◌, length, get_elem?, get_last?, sum, map, u64_mod,
}
use synddb.Shared.BatchInfo.{BatchInfo, contains, len}

-- The sorted list of batches.
pub record BatchIndex : Type 0 where
  pub batches : List BatchInfo

abbrev pub empty : BatchIndex
empty = record { batches = [] }

-- Whether the predicate holds at an index.
abbrev pub holds_at : (BatchInfo → Bool) → List BatchInfo → ℕ → Bool
holds_at p bs i = elim (get_elem? bs i) [ none ↦ false | some b ↦ p b ]

-- The loop of the standard library's `binary_search_by`: halve while more than one place is left.
-- Half of the places, at least one, go in each round, so the length is fuel enough.
pub search_base : ℕ → (BatchInfo → Bool) → List BatchInfo → ℕ → ℕ → ℕ
search_base zero p bs base size = base
search_base (suc fuel) p bs base size =
    let half = size / 2 in
    let mid = base + half in
    let rest = search_base fuel p bs (if holds_at p bs mid then mid else base) (size - half) in
    if ltb 1 size then rest else base

-- The standard library's `partition_point`.
unfoldable pub partition_point : (BatchInfo → Bool) → List BatchInfo → ℕ
unfolding search_base
partition_point p [] = 0
partition_point p (b ∷ bs) =
    let base = search_base (length (b ∷ bs)) p (b ∷ bs) 0 (length (b ∷ bs)) in
    if holds_at p (b ∷ bs) base then base + 1 else base

abbrev pub then_some : Bool → BatchInfo → Option BatchInfo
then_some true b = some b
then_some false b = none

abbrev pub checked : ℕ → Option BatchInfo → Option BatchInfo
checked sequence none = none
checked sequence (some b) = then_some (contains b sequence) b

unfoldable pub find_batch_containing : BatchIndex → ℕ → Option BatchInfo
unfolding partition_point
find_batch_containing index sequence =
    let idx = partition_point (λ b. leb b.start_sequence sequence) index.batches in
    if idx == 0 then none else checked sequence (get_elem? index.batches (idx - 1))

unfoldable pub find_first_batch_starting_at_or_after : BatchIndex → ℕ → Option BatchInfo
unfolding partition_point
find_first_batch_starting_at_or_after index sequence =
    get_elem? index.batches (partition_point (λ b. ltb b.start_sequence sequence) index.batches)

unfoldable pub find_first_batch_after : BatchIndex → ℕ → Option BatchInfo
unfolding partition_point
find_first_batch_after index sequence =
    get_elem? index.batches (partition_point (λ b. leb b.start_sequence sequence) index.batches)

-- The standard library's `binary_search_by_key(..).ok()`: the same loop, then a test for equality.
unfoldable pub find_batch_index : BatchIndex → ℕ → Option ℕ
unfolding search_base
find_batch_index index start =
    let n = length index.batches in
    let base = search_base n (λ b. leb b.start_sequence start) index.batches 0 n in
    if holds_at (λ b. b.start_sequence == start) index.batches base then some base else none

unfoldable pub gaps_from : ℕ → ℕ → List BatchInfo → List (ℕ × ℕ)
gaps_from from expected [] = []
gaps_from from expected (b ∷ bs) =
    let skipped = gaps_from from expected bs in
    let rest = gaps_from from ((b.end_sequence + 1) % u64_mod) bs in
    if ltb b.end_sequence from
    then skipped
    else if ltb expected b.start_sequence
    then (expected, b.start_sequence) ∷ rest
    else rest

unfoldable pub detect_gaps : BatchIndex → ℕ → List (ℕ × ℕ)
unfolding gaps_from
detect_gaps index from = gaps_from from from index.batches

unfoldable pub latest_sequence : BatchIndex → Option ℕ
latest_sequence index = elim (get_last? index.batches) [
  | none ↦ none
  | some b ↦ some b.end_sequence
]

unfoldable pub earliest_sequence : BatchIndex → Option ℕ
earliest_sequence index = elim (get_elem? index.batches 0) [
  | none ↦ none
  | some b ↦ some b.start_sequence
]

-- `refresh`, with the listing that the fetcher returns: the new index and the number of new batches.
unfoldable pub refresh : List BatchInfo → BatchIndex → BatchIndex × ℕ
refresh listed index = (record { batches = listed }, length listed - length index.batches)

-- The index's own `contains`.
abbrev pub is_covered : BatchIndex → ℕ → Bool
unfolding find_batch_containing
is_covered index sequence = elim (find_batch_containing index sequence) [
  | none ↦ false
  | some b ↦ true
]

unfoldable pub total_messages : BatchIndex → ℕ
total_messages index = sum (map len index.batches)

pub record BatchIterator : Type 0 where
  pub batch_idx : ℕ
  pub message_offset : ℕ

abbrev pub new : BatchIterator
new = record { batch_idx = 0; message_offset = 0 }

unfoldable pub starting_from : ℕ → List BatchInfo → ℕ → BatchIterator
starting_from idx [] sequence = record { batch_idx = idx; message_offset = 0 }
starting_from idx (b ∷ bs) sequence =
    if contains b sequence
    then record { batch_idx = idx; message_offset = sequence - b.start_sequence }
    else if ltb sequence b.start_sequence
    then record { batch_idx = idx; message_offset = 0 }
    else starting_from (idx + 1) bs sequence

unfoldable pub starting_at : BatchIndex → ℕ → BatchIterator
unfolding starting_from
starting_at index sequence = starting_from 0 index.batches sequence

unfoldable pub current_batch : BatchIterator → BatchIndex → Option BatchInfo
current_batch it index = get_elem? index.batches it.batch_idx

unfoldable pub current_sequence : BatchIterator → BatchIndex → Option ℕ
unfolding current_batch
current_sequence it index = elim (current_batch it index) [
  | none ↦ none
  | some b ↦ some ((b.start_sequence + it.message_offset) % u64_mod)
]

unfoldable pub is_exhausted : BatchIterator → BatchIndex → Bool
is_exhausted it index = leb (length index.batches) it.batch_idx

abbrev pub reset : BatchIterator → BatchIterator
reset it = record { batch_idx = 0; message_offset = 0 }

unfoldable pub advance_to_next_batch : BatchIterator → BatchIterator
advance_to_next_batch it = record { batch_idx = it.batch_idx + 1; message_offset = 0 }

-- One message on. Returns whether there is another message.
unfoldable pub advance : BatchIterator → BatchIndex → BatchIterator × Bool
unfolding current_batch is_exhausted advance_to_next_batch
advance it index = elim (current_batch it index) [
  | none ↦ (it, false)
  | some b ↦
      let next = record it { message_offset = it.message_offset + 1 } in
      let moved = if leb (len b) next.message_offset then advance_to_next_batch next else next in
      (moved, if is_exhausted moved index then false else true)
]
