-- ===== src/Attestation/Json/Keys.antt =====
-- The search for a key against a search that tries every place in turn.
use synddb.Prelude.{
  ℕ, zero, suc, ◌+◌, ◌≤◌, ◌<◌, ◌≡◌, ◌≢◌, refl, sym, ap, ◌∙◌, true, Option, none, some, [], ◌∷◌,
  length, take, drop, ltb, if◌then◌else◌, arith, Bool-cases, Option-cases, inl, inr,
}
use synddb.Shared.Bytes.{Bytes, bytes_eq→eq}
use synddb.Attestation.Json.{
  skip_whitespace, starts_with, one_later, position, find_subsequence, after_colon, quoted,
  find_key_from, json_find_key,
}

-- The value behind the pattern and a colon, if these stand at the start.
abbrev pub key_here : Bytes → Bytes → Option Bytes
key_here pattern' rest =
    if starts_with pattern' rest
    then after_colon (skip_whitespace (drop (length pattern') rest))
    else none

abbrev pub or_else : Option Bytes → Option Bytes → Option Bytes
or_else none later = later
or_else (some value) later = some value

-- The value of the first place where the pattern and a colon stand.
pub first_key : Bytes → Bytes → Option Bytes
first_key pattern' [] = none
first_key pattern' (b ∷ bs) = or_else (key_here pattern' (b ∷ bs)) (first_key pattern' bs)

length-take-le : (n : ℕ) (bs : Bytes) → length (take n bs) ≤ length bs
length-take-le zero bs = omega arith
length-take-le (suc n) [] = omega arith
length-take-le (suc n) (b ∷ bs) = omega (arith, length-take-le n bs)

starts_with-length : (needle bs : Bytes) → starts_with needle bs ≡ true → length needle ≤ length bs
starts_with-length needle bs h = omega (
  arith,
  ap length (bytes_eq→eq (take (length needle) bs) needle h),
  length-take-le (length needle) bs,
)

-- No occurrence, no key.
position-eq-none :
    (pattern' bs : Bytes) → position pattern' bs ≡ none → first_key pattern' bs ≡ none
unfolding position first_key
position-eq-none pattern' [] h = refl
position-eq-none pattern' (b ∷ bs) h = elim (Bool-cases (starts_with pattern' (b ∷ bs))) [
  | inl yes' ↦ let e : ◌≡◌ {A = Option ℕ} (some 0) none = rw yes' at h in absurd cc
  | inr no' ↦
      let e : one_later (position pattern' bs) ≡ none = rw no' at h in
      let gone : position pattern' bs ≡ none = ground arith in
      rw no' (position-eq-none pattern' bs gone)
]

-- Before the first occurrence there is no key.
position-eq-some :
    (pattern' bs : Bytes) (i : ℕ)
    → position pattern' bs ≡ some i
    → (first_key pattern' bs ≡ first_key pattern' (drop i bs))
      × (starts_with pattern' (drop i bs) ≡ true)
      × (i < length bs)
unfolding position first_key
position-eq-some pattern' [] i h = absurd cc
position-eq-some pattern' (b ∷ bs) i h = elim (Bool-cases (starts_with pattern' (b ∷ bs))) [
  | inl yes' ↦
      let e : some 0 ≡ some i = rw yes' at h in
      let z : i ≡ 0 = ground arith in rw z (refl, yes', omega arith)
  | inr no' ↦
      let e : one_later (position pattern' bs) ≡ some i = rw no' at h in
      elim (Option-cases (position pattern' bs)) [
        | inl gone ↦ let f : none ≡ some i = rw gone at e in absurd cc
        | inr (j, found) ↦
            let f : some (j + 1) ≡ some i = rw found at e in
            let next : i ≡ suc j = ground arith in
            let (same, here, lt) = position-eq-some pattern' bs j found in
            rw next (rw no' same, here, omega (arith, lt))
      ]
]

position-eq-none_short :
    (pattern' bs : Bytes) → length bs < length pattern' → position pattern' bs ≡ none
unfolding position
position-eq-none_short pattern' [] h = refl
position-eq-none_short pattern' (b ∷ bs) h = elim (Bool-cases (starts_with pattern' (b ∷ bs))) [
  | inl yes' ↦ absurd (omega (arith, starts_with-length pattern' (b ∷ bs) yes'))
  | inr no' ↦
      let later : position pattern' bs ≡ none = position-eq-none_short pattern' bs (omega arith) in
      rw (no', later)
]

find_subsequence-eq-position :
    (bs pattern' : Bytes) → find_subsequence bs pattern' ≡ position pattern' bs
unfolding find_subsequence
find_subsequence-eq-position bs pattern' = elim (Bool-cases (ltb (length bs) (length pattern'))) [
  | inl short ↦ rw short (sym (position-eq-none_short pattern' bs (ground arith)))
  | inr long ↦ rw long
]

length-drop-le : (n : ℕ) (bs : Bytes) → length (drop n bs) ≤ length bs
length-drop-le zero bs = omega arith
length-drop-le (suc n) [] = omega arith
length-drop-le (suc n) (b ∷ bs) = omega (arith, length-drop-le n bs)

drop-eq-nil : (n : ℕ) (bs : Bytes) → drop n bs ≡ [] → length bs ≤ n
drop-eq-nil zero bs e = omega (arith, ap length e)
drop-eq-nil (suc n) [] e = omega arith
drop-eq-nil (suc n) (b ∷ bs) e = omega (arith, drop-eq-nil n bs e)

empty : (bs : Bytes) → length bs ≡ 0 → bs ≡ []
empty [] e = refl
empty (b ∷ bs) e = absurd (omega (arith, e))

shorter :
    (i : ℕ) (rest : Bytes) (fuel : ℕ)
    → i < length rest
    → length rest < suc fuel
    → length (drop 1 (drop i rest)) < fuel
shorter zero [] fuel lt h = absurd (omega arith)
shorter zero (b ∷ bs) fuel lt h = omega arith
shorter (suc i) [] fuel lt h = absurd (omega arith)
shorter (suc i) (b ∷ bs) fuel lt h = omega (arith, tail_le (drop i bs), length-drop-le i bs)
  where
    tail_le : (l : Bytes) → length (drop 1 l) ≤ length l
    tail_le [] = omega arith
    tail_le (x ∷ l) = omega arith

-- A round of the loop at an occurrence.
at_occurrence :
    (fuel i : ℕ) (pattern' rest here : Bytes)
    → find_subsequence rest pattern' ≡ some i
    → drop i rest ≡ here
    → length here ≢ 0
    → starts_with pattern' here ≡ true
    → find_key_from fuel pattern' (drop 1 here) ≡ first_key pattern' (drop 1 here)
    → find_key_from (suc fuel) pattern' rest ≡ first_key pattern' here
unfolding find_key_from first_key
at_occurrence fuel i pattern' rest [] found d n s ih = absurd (n refl)
at_occurrence fuel i pattern' rest (c ∷ cs) found d n s ih =
    elim (Option-cases (after_colon (skip_whitespace (drop (length pattern') (c ∷ cs))))) [
      | inl none' ↦
          rw (found, find_key_from)
            (rw (d, s, none') (ap (λ l. find_key_from fuel pattern' (drop 1 l)) d ∙ ih))
      | inr (value, some') ↦ rw (found, find_key_from) (rw (d, s, some') refl)
    ]

find_key_from-first :
    (fuel : ℕ) (pattern' rest : Bytes)
    → length rest < fuel
    → find_key_from fuel pattern' rest ≡ first_key pattern' rest
unfolding find_key_from
find_key_from-first zero pattern' rest h = absurd (omega arith)
find_key_from-first (suc fuel) pattern' rest h = elim (Option-cases (position pattern' rest)) [
  | inl gone ↦
      let found = find_subsequence-eq-position rest pattern' ∙ gone in
      rw (found, find_key_from) (sym (position-eq-none pattern' rest gone))
  | inr (i, there) ↦
      let found = find_subsequence-eq-position rest pattern' ∙ there in
      let (same, here, lt) = position-eq-some pattern' rest i there in
      let left = drop i rest in
      let short : length (drop 1 left) < fuel = shorter i rest fuel lt h in
      at_occurrence fuel i pattern' rest left found refl
        (λ z. absurd (omega (arith, drop-eq-nil i rest (empty left z), lt))) here
        (find_key_from-first fuel pattern' (drop 1 left) short)
      ∙ sym same
]

-- The search finds the first place where the quoted key stands with a colon behind it, and passes
-- over the places where none does.
pub json_find_key-first : (json key : Bytes) → json_find_key json key ≡ first_key (quoted key) json
unfolding json_find_key
json_find_key-first json key =
    find_key_from-first (suc (length json)) (quoted key) json (omega arith)
