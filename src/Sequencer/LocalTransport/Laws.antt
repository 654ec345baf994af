-- ===== src/Sequencer/LocalTransport/Laws.antt =====
-- What publishing a batch changes, in both kinds of storage.
use synddb.Prelude.{
  ℕ, ◌+◌, ◌<◌, ◌≤◌, ◌≡◌, refl, sym, ap, subst, ==_iff, ◌∙◌, Bool, true, false, ◌&&◌, Option, none,
  some, List, [], ◌∷◌, ltb, ◌==◌, find, if◌then◌else◌, ok, arith, Bool-cases, inl, inr,
}
use synddb.Shared.Cbor.Batch.{CborBatch}
use synddb.Shared.Bytes.{Bytes}
use synddb.Sequencer.LocalTransport.{
  StoredBatch, StorageInner, memory, sqlite, Codec, rows_of, insert, insert_row, i64_bound, execute,
  put, metadata, stored, encoded, publish, data_of, get_batch_compressed,
}

abbrev pub at : ℕ → List StoredBatch → Option StoredBatch
at n rows = find (λ b. b.start_sequence == n) rows

at-insert :
    (b : StoredBatch) (rows : List StoredBatch) (n : ℕ)
    → at n (insert b rows) ≡ (if b.start_sequence == n then some b else at n rows)
unfolding insert
at-insert b [] n = refl
at-insert b (x ∷ xs) n = ground (arith, at-insert b xs n)

insert_row-fresh :
    (b : StoredBatch) (rows : List StoredBatch)
    → at b.start_sequence rows ≡ none
    → insert_row b rows ≡ insert b rows
unfolding insert insert_row
insert_row-fresh b [] h = refl
insert_row-fresh b (x ∷ xs) h = ground (arith, insert_row-fresh b xs)

-- In the order of their starts, from a number on.
abbrev pub Ascending : ℕ → List StoredBatch → Type 0
Ascending lo [] = Unit {0}
Ascending lo (x ∷ xs) = (lo ≤ x.start_sequence) × Ascending (x.start_sequence + 1) xs

insert-Ascending :
    (lo : ℕ) (b : StoredBatch) (rows : List StoredBatch)
    → lo ≤ b.start_sequence
    → Ascending lo rows
    → Ascending lo (insert b rows)
unfolding insert
insert-Ascending lo b [] h a = (h, tt)
insert-Ascending lo b (x ∷ xs) h a = elim (Bool-cases (ltb b.start_sequence x.start_sequence)) [
  | inl before ↦ rw (before, insert) (h, (after b.start_sequence x.start_sequence before, a.1))
  | inr not_before ↦ elim (Bool-cases (b.start_sequence == x.start_sequence)) [
    | inl same ↦
        rw (not_before, insert)
          (rw same (
            h,
            subst (λ k. Ascending (k + 1) xs)
                (sym ((==_iff b.start_sequence x.start_sequence).0 same)) a.1,
          ))
    | inr other ↦
        rw (not_before, insert)
          (rw other (
            a.0,
            insert-Ascending (x.start_sequence + 1) b xs
                (behind b.start_sequence x.start_sequence not_before other) a.1,
          ))
  ]
]
  where
    after : (m n : ℕ) → ltb m n ≡ true → m + 1 ≤ n
    after m n h = ground arith

    behind : (m n : ℕ) → ltb m n ≡ false → (m == n) ≡ false → n + 1 ≤ m
    behind m n h k = ground arith

-- The sequences of the batch fit into SQLite's integers.
abbrev pub InRange : StoredBatch → Type 0
InRange b = (b.start_sequence < i64_bound) × (b.end_sequence < i64_bound)

execute-fresh :
    (b : StoredBatch) (rows : List StoredBatch)
    → InRange b
    → at b.start_sequence rows ≡ none
    → execute none b rows ≡ (insert b rows, ok tt)
execute-fresh b rows (hs, he) fresh =
    let both : (ltb b.start_sequence i64_bound && ltb b.end_sequence i64_bound) ≡ true =
      fits b.start_sequence b.end_sequence hs he in
    rw (both, execute) (ap (λ r. (r, ok tt)) (insert_row-fresh b rows fresh))
  where
    fits : (m n : ℕ) → m < i64_bound → n < i64_bound → (ltb m i64_bound && ltb n i64_bound) ≡ true
    fits m n h k = ground arith

-- Both kinds of storage, with the same change.
abbrev with_rows : StorageInner → List StoredBatch → StorageInner
with_rows (memory rows) rows' = memory rows'
with_rows (sqlite rows) rows' = sqlite rows'

put-fresh :
    (batch : CborBatch) (uncompressed compressed : Bytes) (s : StorageInner)
    → InRange (stored batch uncompressed compressed)
    → at batch.start_sequence (rows_of s) ≡ none
    → put none batch uncompressed compressed s
      ≡ (with_rows s (insert (stored batch uncompressed compressed) (rows_of s)), ok tt)
put-fresh batch uncompressed compressed (memory rows) range fresh = refl
put-fresh batch uncompressed compressed (sqlite rows) range fresh =
    let b = stored batch uncompressed compressed in rw (execute-fresh b rows range fresh, put) refl

data_of-insert :
    (b : StoredBatch) (rows : List StoredBatch) (n : ℕ)
    → data_of (at n (insert b rows))
      ≡ (if b.start_sequence == n then some b.compressed_data else data_of (at n rows))
data_of-insert b rows n =
    ap data_of (at-insert b rows n) ∙ pushed (b.start_sequence == n) b (at n rows)
  where
    pushed :
        (c : Bool) (b : StoredBatch) (o : Option StoredBatch)
        → data_of (if c then some b else o) ≡ (if c then some b.compressed_data else data_of o)
    pushed true b o = refl
    pushed false b o = refl

-- The batch is found under its start, the others as before, and the order is kept.
abbrev pub Kept : StoredBatch → StorageInner → StorageInner → Type 0
Kept b s s' =
    ((n : ℕ)
      → get_batch_compressed n s'
        ≡ (if b.start_sequence == n then some b.compressed_data else get_batch_compressed n s))
    × Ascending 0 (rows_of s')

Kept-insert :
    (b : StoredBatch) (s : StorageInner)
    → Ascending 0 (rows_of s)
    → Kept b s (with_rows s (insert b (rows_of s)))
Kept-insert b (memory rows) a = (data_of-insert b rows, insert-Ascending 0 b rows (omega arith) a)
Kept-insert b (sqlite rows) a = (data_of-insert b rows, insert-Ascending 0 b rows (omega arith) a)

module _ (codec : Codec) where
  -- A batch that can be encoded, whose sequences are below 2^63 and whose start is new in a listing in
  -- order, is published in memory as in a database that does not fail: its metadata is the answer, its
  -- data is found under its start, every other start gives what it gave before, and the listing stays in
  -- order.
  pub publish-Kept :
      (batch : CborBatch) (uncompressed compressed : Bytes) (s : StorageInner)
      → encoded codec batch ≡ ok (uncompressed, compressed)
      → InRange (stored batch uncompressed compressed)
      → at batch.start_sequence (rows_of s) ≡ none
      → Ascending 0 (rows_of s)
      → ((publish codec none batch s).1 ≡ ok (metadata batch uncompressed compressed))
        × Kept (stored batch uncompressed compressed) s (publish codec none batch s).0
  unfolding publish
  publish-Kept batch uncompressed compressed s e range fresh order = rw e (
      rw (put-fresh batch uncompressed compressed s range fresh)
        (refl, Kept-insert (stored batch uncompressed compressed) s order))
