-- ===== src/Validator/Audit/Store.antt =====
-- The table of deferred changesets is a map from sequences, read in their order.
use synddb.Prelude.{
  ℕ, ◌+◌, ◌≤◌, ◌≡◌, Option, none, some, List, [], ◌∷◌, ◌==◌, leb, find, arith, if◌then◌else◌,
}
use synddb.Validator.Audit.{PendingChangeset, store, clear_up_to}

-- Sequences rise, from a bound on.
abbrev pub Rising : ℕ → List PendingChangeset → Type 0
Rising lo [] = Unit {0}
Rising lo (p ∷ ps) = (lo ≤ p.sequence) × Rising (p.sequence + 1) ps

abbrev pub lookup : ℕ → List PendingChangeset → Option PendingChangeset
lookup n rows = find (λ p. p.sequence == n) rows

Rising-weaken :
    (lo hi : ℕ) (rows : List PendingChangeset) → lo ≤ hi → Rising hi rows → Rising lo rows
Rising-weaken lo hi [] h r = tt
Rising-weaken lo hi (p ∷ ps) h r = (omega arith, r.1)

pub store-Rising :
    (p : PendingChangeset) (lo : ℕ) (rows : List PendingChangeset)
    → lo ≤ p.sequence
    → Rising lo rows
    → Rising lo (store p rows)
unfolding store
store-Rising p lo [] h r = (h, tt)
store-Rising p lo (q ∷ qs) h r =
    let ih = store-Rising p (q.sequence + 1) qs in
    ground (arith, ih, Rising-weaken (p.sequence + 1) (q.sequence + 1) qs)

pub find-store :
    (p : PendingChangeset) (n : ℕ) (rows : List PendingChangeset)
    → lookup n (store p rows) ≡ (if p.sequence == n then some p else lookup n rows)
unfolding store
find-store p n [] = ground arith
find-store p n (q ∷ qs) = ground (arith, find-store p n qs)

-- Storing a changeset keeps the table sorted with one row for each sequence, gives the new row under
-- its sequence, and leaves every other sequence's row.
lookup-store :
    (p : PendingChangeset) (n : ℕ) (rows : List PendingChangeset)
    → Rising 0 rows
    → Rising 0 (store p rows)
      × (lookup n (store p rows) ≡ (if p.sequence == n then some p else lookup n rows))
lookup-store p n rows h = (store-Rising p 0 rows (omega arith) h, find-store p n rows)

-- Clearing removes the rows up to the sequence, that one included, and no other.
lookup-clear_up_to :
    (sequence n : ℕ) (rows : List PendingChangeset)
    → lookup n (clear_up_to sequence rows) ≡ (if leb n sequence then none else lookup n rows)
unfolding clear_up_to
lookup-clear_up_to sequence n [] = ground arith
lookup-clear_up_to sequence n (p ∷ ps) = ground (arith, lookup-clear_up_to sequence n ps)
