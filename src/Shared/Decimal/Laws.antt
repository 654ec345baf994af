-- ===== src/Shared/Decimal/Laws.antt =====
-- Decimal texts are parsed back.
use synddb.Prelude.{
  ℕ, zero, suc, ◌+◌, ◌-◌, ◌*◌, ◌/◌, ◌%◌, ◌^◌, ◌<◌, ◌≤◌, ◌≡◌, refl, ap, ◌∙◌, true, false, ltb, ◌==◌,
  none, some, [], ◌∷◌, ◌++◌, length, length-append, if◌then◌else◌, u64_mod, arith, All, All-append,
  Bool-cases, inl, inr,
}
use native.Mathlib.Omega.{pow_step}
use synddb.Shared.Bytes.{Bytes, bytes_eq, bytes_eq→eq, bytes_eq_refl}
use synddb.Shared.Decimal.{
  is_digit, read_all, parse, to_decimal, zeros, padded, split, strip_suffix, put,
}

abbrev pub IsDigit : ℕ → Type 0
IsDigit c = (48 ≤ c) × (c ≤ 57)

abbrev pub value : ℕ → Bytes → ℕ
value acc [] = acc
value acc (c ∷ cs) = value (acc * 10 + (c - 48)) cs

value-append : (acc : ℕ) (xs ys : Bytes) → value acc (xs ++ ys) ≡ value (value acc xs) ys
value-append acc [] ys = refl
value-append acc (x ∷ xs) ys = value-append (acc * 10 + (x - 48)) xs ys

value_grows : (acc : ℕ) (cs : Bytes) → acc ≤ value acc cs
value_grows acc [] = omega arith
value_grows acc (c ∷ cs) = omega (arith, value_grows (acc * 10 + (c - 48)) cs)

pub read_all-value :
    (bound acc : ℕ) (cs : Bytes)
    → All IsDigit cs
    → value acc cs < bound
    → read_all bound acc cs ≡ some (value acc cs)
unfolding read_all
read_all-value bound acc [] d h = refl
read_all-value bound acc (c ∷ cs) d h =
    let g = value_grows (acc * 10 + (c - 48)) cs in
    let low : is_digit c ≡ true = digit c d.0 in
    let small : ltb (acc * 10 + (c - 48)) bound ≡ true = below (acc * 10 + (c - 48)) g h in
    rw (low, read_all) (rw small (read_all-value bound (acc * 10 + (c - 48)) cs d.1 h))
  where
    digit : (c : ℕ) → IsDigit c → is_digit c ≡ true
    digit c d = ground (arith, d.0, d.1)

    below : (n : ℕ) {m k : ℕ} → n ≤ m → m < k → ltb n k ≡ true
    below n h k = ground arith

to_decimal-digits : (fuel n : ℕ) → All IsDigit (to_decimal fuel n)
unfolding to_decimal
to_decimal-digits zero n = tt
to_decimal-digits (suc fuel) n = elim (Bool-cases (ltb n 10)) [
  | inl one ↦ rw (one, to_decimal) ((omega arith, digit_le n one), tt)
  | inr more ↦
      rw (more, to_decimal)
        (All-append IsDigit (to_decimal fuel (n / 10)) ((48 + n % 10) ∷ [])
          (to_decimal-digits fuel (n / 10)) ((omega arith, omega arith), tt))
]
  where
    digit_le : (n : ℕ) → ltb n 10 ≡ true → 48 + n ≤ 57
    digit_le n h = ground arith

value-to_decimal : (fuel n : ℕ) → n < 10 ^ fuel → value 0 (to_decimal fuel n) ≡ n
unfolding to_decimal
value-to_decimal zero n h = omega (arith, h)
value-to_decimal (suc fuel) n h = elim (Bool-cases (ltb n 10)) [
  | inl one ↦ rw (one, to_decimal) (omega arith)
  | inr more ↦
      let step = pow_step 10 fuel in
      let small : n / 10 < 10 ^ fuel = omega (arith, h, step) in
      let rest = value-to_decimal fuel (n / 10) small in
      rw (more, to_decimal)
        (value-append 0 (to_decimal fuel (n / 10)) ((48 + n % 10) ∷ []) ∙ omega (arith, rest))
]

value-zeros : (k : ℕ) (cs : Bytes) → value 0 (zeros k ++ cs) ≡ value 0 cs
value-zeros zero cs = refl
value-zeros (suc k) cs = value-zeros k cs

zeros-digits : (k : ℕ) → All IsDigit (zeros k)
zeros-digits zero = tt
zeros-digits (suc k) = ((omega arith, omega arith), zeros-digits k)

pub padded-digits : (n : ℕ) → All IsDigit (padded n)
unfolding padded
padded-digits n =
    All-append IsDigit (zeros (12 - length (to_decimal 20 n))) (to_decimal 20 n)
      (zeros-digits (12 - length (to_decimal 20 n))) (to_decimal-digits 20 n)

to_decimal-some : (fuel n : ℕ) → 1 ≤ length (to_decimal (suc fuel) n)
unfolding to_decimal
to_decimal-some fuel n = elim (Bool-cases (ltb n 10)) [
  | inl one ↦ rw (one, to_decimal) (omega arith)
  | inr more ↦
      let e = length-append (to_decimal fuel (n / 10)) ((48 + n % 10) ∷ []) in
      rw (more, to_decimal) (omega (arith, e))
]

padded-some : (n : ℕ) → 1 ≤ length (padded n)
unfolding padded
padded-some n =
    let e = length-append (zeros (12 - length (to_decimal 20 n))) (to_decimal 20 n) in
    omega (arith, e, to_decimal-some 19 n)

-- A text of digits is parsed as its value, if that is below the bound.
pub parse-digits :
    (bound : ℕ) (cs : Bytes)
    → 1 ≤ length cs
    → All IsDigit cs
    → value 0 cs < bound
    → parse bound cs ≡ some (value 0 cs)
unfolding parse
parse-digits bound [] some' d h = absurd (omega (arith, some'))
parse-digits bound (c ∷ cs) some' d h =
    let sign : (c == 43) ≡ false = not_plus c d.0 in rw sign (read_all-value bound 0 (c ∷ cs) d h)
  where
    not_plus : (c : ℕ) → IsDigit c → (c == 43) ≡ false
    not_plus c d = ground (arith, d.0, d.1)

pub parse-padded : (n : ℕ) → n < u64_mod → parse u64_mod (padded n) ≡ some n
unfolding padded
parse-padded n h =
    let big : n < 10 ^ 20 = omega (arith, h) in
    let digits = to_decimal 20 n in
    let e : value 0 (padded n) ≡ n =
      value-zeros (12 - length digits) digits ∙ value-to_decimal 20 n big in
    parse-digits u64_mod (padded n) (padded-some n) (padded-digits n) (omega (arith, e, h))
    ∙ ap (λ k. some k) e

abbrev pub Without : ℕ → Bytes → Type 0
Without sep cs = All (λ c. (c == sep) ≡ false) cs

pub split-one : (sep : ℕ) (cs : Bytes) → Without sep cs → split sep cs ≡ cs ∷ []
unfolding split
split-one sep [] h = refl
split-one sep (c ∷ cs) h = rw (h.0, split) (rw (split-one sep cs h.1) refl)

pub split-append :
    (sep : ℕ) (xs ys : Bytes) → Without sep xs → split sep (xs ++ sep ∷ ys) ≡ xs ∷ split sep ys
unfolding split
split-append sep [] ys h = let e : (sep == sep) ≡ true = ground arith in rw (e, split) refl
split-append sep (x ∷ xs) ys h = rw (h.0, split) (rw (split-append sep xs ys h.1) refl)

longer-differs : (x : ℕ) (xs suffix : Bytes) → bytes_eq (x ∷ xs ++ suffix) suffix ≡ false
longer-differs x xs suffix = elim (Bool-cases (bytes_eq (x ∷ xs ++ suffix) suffix)) [
  | inr other ↦ other
  | inl same ↦
      let e = ap length (bytes_eq→eq (x ∷ xs ++ suffix) suffix same) in
      let f = length-append xs suffix in absurd (omega (arith, e, f))
]

pub strip_suffix-append : (xs suffix : Bytes) → strip_suffix suffix (xs ++ suffix) ≡ some xs
unfolding strip_suffix
strip_suffix-append [] suffix = own suffix
  where
    own : (s : Bytes) → strip_suffix s s ≡ some []
    own [] = ap (λ b. if b then some [] else none) (bytes_eq_refl [])
    own (c ∷ cs) =
        ap (λ b. if b then some [] else put c (strip_suffix (c ∷ cs) cs)) (bytes_eq_refl (c ∷ cs))
strip_suffix-append (x ∷ xs) suffix =
    rw (longer-differs x xs suffix, strip_suffix) (rw (strip_suffix-append xs suffix) refl)
