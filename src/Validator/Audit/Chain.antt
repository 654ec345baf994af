-- ===== src/Validator/Audit/Chain.antt =====
-- The check of a chain reports every changeset once and leaves the database as it was.
use synddb.Prelude.{
  ◌+◌, ◌≤◌, ◌⊎◌, ◌∙◌, sym, subst, Bool, String, err, All, ltb, length, filter, if◌then◌else◌,
  Bool-cases, arith, ℕ, ◌≡◌, refl, ap, List, [], ◌∷◌, ◌++◌, map, ok, Result-cases, inl, inr,
}
use synddb.Shared.Bytes.{Bytes}
use synddb.Validator.Sqlite.{Sqlite}
use synddb.Validator.Audit.{
  PendingChangeset, AuditFailure, insert_desc, sort_desc, abort, broken, walk, replay,
  verify_changeset_chain,
}

abbrev pub sequences : List PendingChangeset → List ℕ
sequences = map (λ c. c.sequence)

abbrev pub failed_sequences : List AuditFailure → List ℕ
failed_sequences = map (λ f. f.sequence)

sequences-broken : (cs : List PendingChangeset) → failed_sequences (map broken cs) ≡ sequences cs
sequences-broken [] = refl
sequences-broken (c ∷ cs) = ap (◌∷◌ c.sequence) (sequences-broken cs)

-- The latest first.
abbrev pub Descending : List PendingChangeset → Type 0
Descending [] = Unit {0}
Descending (c ∷ cs) = All (λ d. d.sequence ≤ c.sequence) cs × Descending cs

-- How many changesets pass a test.
abbrev pub count : (PendingChangeset → Bool) → List PendingChangeset → ℕ
count p cs = length (filter p cs)

All-insert_desc :
    (P : PendingChangeset → Type 0) (c : PendingChangeset) (cs : List PendingChangeset)
    → P c
    → All P cs
    → All P (insert_desc c cs)
All-insert_desc P c [] h hs = (h, tt)
All-insert_desc P c (d ∷ cs) h hs = elim (Bool-cases (ltb c.sequence d.sequence)) [
  | inl later ↦ rw later (hs.0, All-insert_desc P c cs h hs.1)
  | inr earlier ↦ rw earlier (h, hs)
]

insert_desc-Descending :
    (c : PendingChangeset) (cs : List PendingChangeset)
    → Descending cs
    → Descending (insert_desc c cs)
insert_desc-Descending c [] h = (tt, tt)
insert_desc-Descending c (d ∷ cs) (below, h) = elim (Bool-cases (ltb c.sequence d.sequence)) [
  | inl later ↦
      let le : c.sequence ≤ d.sequence = ground arith in
      rw later (
        All-insert_desc (λ x. x.sequence ≤ d.sequence) c cs le below,
        insert_desc-Descending c cs h,
      )
  | inr earlier ↦
      let le : d.sequence ≤ c.sequence = ground arith in
      rw earlier ((le, lower cs le below), (below, h))
]
  where
    lower :
        (cs : List PendingChangeset)
        → d.sequence ≤ c.sequence
        → All (λ x. x.sequence ≤ d.sequence) cs
        → All (λ x. x.sequence ≤ c.sequence) cs
    lower [] le h = tt
    lower (x ∷ cs) le (h, hs) = (omega arith, lower cs le hs)

sort_desc-Descending : (cs : List PendingChangeset) → Descending (sort_desc cs)
sort_desc-Descending [] = tt
sort_desc-Descending (c ∷ cs) = insert_desc-Descending c (sort_desc cs) (sort_desc-Descending cs)

count-cons :
    (p : PendingChangeset → Bool) (c : PendingChangeset) (cs : List PendingChangeset)
    → count p (c ∷ cs) ≡ (if p c then 1 else 0) + count p cs
count-cons p c cs = elim (Bool-cases (p c)) [
  | inl t ↦ rw t (omega arith)
  | inr f ↦ rw f (omega arith)
]

count-insert_desc :
    (p : PendingChangeset → Bool) (c : PendingChangeset) (cs : List PendingChangeset)
    → count p (insert_desc c cs) ≡ count p (c ∷ cs)
count-insert_desc p c [] = refl
count-insert_desc p c (d ∷ cs) = elim (Bool-cases (ltb c.sequence d.sequence)) [
  | inr earlier ↦ rw earlier refl
  | inl later ↦ rw later (
      let a = count-cons p d (insert_desc c cs) in
      let b = count-insert_desc p c cs in
      let e = count-cons p c cs in
      let f = count-cons p c (d ∷ cs) in let g = count-cons p d cs in omega arith)
]

count-sort_desc :
    (p : PendingChangeset → Bool) (cs : List PendingChangeset) → count p (sort_desc cs) ≡ count p cs
count-sort_desc p [] = refl
count-sort_desc p (c ∷ cs) =
    count-insert_desc p c (sort_desc cs)
    ∙ (let a = count-cons p c (sort_desc cs) in
        let b = count-cons p c cs in let e = count-sort_desc p cs in omega arith)

module _ {Conn : Type 0} (sqlite : Sqlite Conn) where
  -- A changeset undoes what its inverse did.
  abbrev pub Inverts : Type 0
  Inverts =
      (changeset inverted : Bytes) (conn conn' : Conn)
      → sqlite.invert_strm changeset ≡ ok inverted
      → sqlite.apply_strm abort conn inverted ≡ ok conn'
      → sqlite.apply_strm abort conn' changeset ≡ ok conn

  -- Each of the changesets is undone in turn, by applying its inverse.
  abbrev pub Undoes : Conn → List PendingChangeset → Conn → Type 0
  Undoes conn [] end' = end' ≡ conn
  Undoes conn (c ∷ cs) end' =
      (inverted : Bytes) × (next : Conn) × (sqlite.invert_strm c.changeset ≡ ok inverted)
      × (sqlite.apply_strm abort conn inverted ≡ ok next)
      × Undoes next cs end'

  -- The first changeset has no inverse, or its inverse does not apply.
  abbrev pub Stuck : Conn → List PendingChangeset → Type 0
  Stuck conn [] = Unit {0}
  Stuck conn (c ∷ cs) =
      ((e : String) × (sqlite.invert_strm c.changeset ≡ err e))
      ⊎ ((inverted : Bytes) × (e : String) × (sqlite.invert_strm c.changeset ≡ ok inverted)
          × (sqlite.apply_strm abort conn inverted ≡ err e))

  -- Some of the changesets are undone, and the walk is stuck at the others, which are the failures.
  abbrev Splits :
      Conn → List PendingChangeset → Conn × List PendingChangeset × List AuditFailure → Type 0
  Splits conn cs (end', undone, failed) =
      (rest : List PendingChangeset) × (cs ≡ undone ++ rest)
      × Undoes conn undone end'
      × Stuck end' rest
      × (failed_sequences failed ≡ sequences rest)

  walk-Splits : (conn : Conn) (cs : List PendingChangeset) → Splits conn cs (walk sqlite conn cs)
  unfolding walk
  walk-Splits conn [] = ([], refl, refl, tt, refl)
  walk-Splits conn (c ∷ cs) = elim (Result-cases (sqlite.invert_strm c.changeset)) [
    | inr (e, i) ↦
        rw (i, walk) (c ∷ cs, refl, refl, inl (e, i), ap (◌∷◌ c.sequence) (sequences-broken cs))
    | inl (inverted, i) ↦ elim (Result-cases (sqlite.apply_strm abort conn inverted)) [
      | inr (e, a) ↦
          rw (i, walk)
            (rw (a, walk)
              (
                c ∷ cs,
                refl,
                refl,
                inr (inverted, e, i, a),
                ap (◌∷◌ c.sequence) (sequences-broken cs),
              ))
      | inl (conn', a) ↦
          let (rest, split, undoes, stuck, failed) = walk-Splits conn' cs in
          rw (i, walk)
            (rw (a, walk) (rest, ap (◌∷◌ c) split, (inverted, conn', i, a, undoes), stuck, failed))
    ]
  ]

  replay-walk :
      (conn : Conn) (cs : List PendingChangeset)
      → Inverts
      → replay sqlite (walk sqlite conn cs).0 (walk sqlite conn cs).1 ≡ conn
  unfolding walk replay
  replay-walk conn [] inverts = refl
  replay-walk conn (c ∷ cs) inverts = elim (Result-cases (sqlite.invert_strm c.changeset)) [
    | inr (e, i) ↦ rw (i, walk) refl
    | inl (inverted, i) ↦ elim (Result-cases (sqlite.apply_strm abort conn inverted)) [
      | inr (e, a) ↦ rw (i, walk) (rw (a, walk) refl)
      | inl (conn', a) ↦
          let ih = replay-walk conn' cs inverts in
          let redo = inverts c.changeset inverted conn conn' i a in
          rw (i, walk) (rw (a, walk) (rw (ih, redo) refl))
    ]
  ]

  -- If a changeset undoes its inverse, the check leaves the database as it was. The changesets, each as
  -- often as it is pending and the latest first, are in two parts: those in front are undone one after
  -- the other and reported as verified, and those behind, whose first has no inverse that applies there,
  -- are reported as failed.
  pub verify_changeset_chain-restores :
      (conn : Conn) (pending : List PendingChangeset)
      → Inverts
      → ((verify_changeset_chain sqlite conn pending).0 ≡ conn)
        × (undone : List PendingChangeset) × (rest : List PendingChangeset) × (end' : Conn)
        × Descending (undone ++ rest)
        × ((p : PendingChangeset → Bool) → count p (undone ++ rest) ≡ count p pending)
        × Undoes conn undone end'
        × Stuck end' rest
        × ((verify_changeset_chain sqlite conn pending).1.verified ≡ sequences undone)
        × (failed_sequences (verify_changeset_chain sqlite conn pending).1.failed ≡ sequences rest)
  unfolding verify_changeset_chain
  verify_changeset_chain-restores conn pending inverts =
      let (rest, split, undoes, stuck, failed) = walk-Splits conn (sort_desc pending) in
      (
        replay-walk conn (sort_desc pending) inverts,
        (walk sqlite conn (sort_desc pending)).1,
        rest,
        (walk sqlite conn (sort_desc pending)).0,
        subst Descending split (sort_desc-Descending pending),
        λ p. ap (count p) (sym split) ∙ count-sort_desc p pending,
        undoes,
        stuck,
        refl,
        failed,
      )
