-- ===== src/Attestation/Json/Values.antt =====
-- Numbers and texts as a JSON printer writes them are read back.
use synddb.Prelude.{
  ℕ, ◌+◌, ◌-◌, ◌*◌, ◌%◌, ◌≤◌, ◌<◌, ◌≡◌, ◌≢◌, refl, sym, ap, ◌∙◌, true, false, none, some, [], ◌∷◌,
  ◌++◌, ltb, ◌==◌, if◌then◌else◌, arith, Bool-cases, inl, inr, All, u64_mod, append_assoc,
  append-nil,
}
use mathlib.Core.List.{reverse, reverse-cons}
use synddb.Shared.Bytes.{Bytes}
use synddb.Attestation.Json.{
  is_json_whitespace, skip_whitespace, is_ascii_digit, read_digits, json_find_key, json_get_u64,
  json_get_string, read_string, backslash_count,
}

-- The number that decimal digits write, behind a number that was read.
abbrev pub decimal : ℕ → Bytes → ℕ
decimal n [] = n
decimal n (d ∷ ds) = decimal (n * 10 + (d - b'0')) ds

abbrev pub IsDigit : ℕ → Type 0
IsDigit b = is_ascii_digit b ≡ true

-- The text does not start with another digit.
abbrev pub Ends : Bytes → Type 0
Ends [] = Unit {0}
Ends (b ∷ bs) = is_ascii_digit b ≡ false

decimal-le : (n : ℕ) (ds : Bytes) → n ≤ decimal n ds
decimal-le n [] = omega arith
decimal-le n (d ∷ ds) = omega (arith, decimal-le (n * 10 + (d - b'0')) ds)

read_digits-end : (n : ℕ) (rest : Bytes) → Ends rest → read_digits n true rest ≡ some n
unfolding read_digits
read_digits-end n [] e = refl
read_digits-end n (b ∷ bs) e = rw e

read_digits-decimal :
    (n : ℕ) (ds rest : Bytes)
    → n < u64_mod
    → All IsDigit ds
    → Ends rest
    → read_digits n true (ds ++ rest)
      ≡ (if ltb (decimal n ds) u64_mod then some (decimal n ds) else none)
unfolding read_digits
read_digits-decimal n [] rest h a e =
    let fits : ltb n u64_mod ≡ true = ground arith in rw fits (read_digits-end n rest e)
read_digits-decimal n (d ∷ ds) rest h a e =
    let next = n * 10 + (d - b'0') in
    let grows = decimal-le next ds in
    rw a.0 (elim (Bool-cases (ltb next u64_mod)) [
      | inl fits ↦
          let tens : ltb (n * 10) u64_mod ≡ true = ground arith in
          rw (tens, fits) (read_digits-decimal next ds rest (ground arith) a.1 e)
      | inr big ↦
          let over : ltb (decimal next ds) u64_mod ≡ false = ground arith in
          rw over (elim (Bool-cases (ltb (n * 10) u64_mod)) [
            | inl tens ↦ rw (tens, big)
            | inr tens ↦ rw tens
          ])
    ])

skip_whitespace-append :
    (ws bs : Bytes)
    → All (λ b. is_json_whitespace b ≡ true) ws
    → skip_whitespace (ws ++ bs) ≡ skip_whitespace bs
unfolding skip_whitespace
skip_whitespace-append [] bs h = refl
skip_whitespace-append (w ∷ ws) bs h = rw h.0 (skip_whitespace-append ws bs h.1)

skip_whitespace-stop :
    (b : ℕ) (bs : Bytes) → is_json_whitespace b ≡ false → skip_whitespace (b ∷ bs) ≡ b ∷ bs
unfolding skip_whitespace
skip_whitespace-stop b bs h = rw h

any_found :
    (d : ℕ) (ds rest : Bytes)
    → IsDigit d
    → read_digits 0 false (d ∷ (ds ++ rest)) ≡ read_digits 0 true (d ∷ (ds ++ rest))
unfolding read_digits
any_found d ds rest h = rw h

-- Where the value of a key is a run of digits, read after white space and up to another byte, it is
-- read as the number that they write if that is a u64, and refused otherwise.
pub json_get_u64-decimal :
    (json key ws rest : Bytes) (d : ℕ) (ds : Bytes)
    → json_find_key json key ≡ some (ws ++ d ∷ (ds ++ rest))
    → All (λ b. is_json_whitespace b ≡ true) ws
    → All IsDigit (d ∷ ds)
    → Ends rest
    → json_get_u64 json key
      ≡ (if ltb (decimal 0 (d ∷ ds)) u64_mod then some (decimal 0 (d ∷ ds)) else none)
unfolding json_get_u64
json_get_u64-decimal json key ws rest d ds found hw hd e =
    let digit : is_json_whitespace d ≡ false = ground arith in
    let skipped =
      skip_whitespace-append ws (d ∷ (ds ++ rest)) hw ∙ skip_whitespace-stop d (ds ++ rest) digit in
    rw found (rw skipped (first_digit d ds rest hd e))
  where
    first_digit :
        (d : ℕ) (ds rest : Bytes)
        → All IsDigit (d ∷ ds)
        → Ends rest
        → read_digits 0 false (d ∷ (ds ++ rest))
          ≡ (if ltb (decimal 0 (d ∷ ds)) u64_mod then some (decimal 0 (d ∷ ds)) else none)
    first_digit d ds rest hd e =
        any_found d ds rest hd.0 ∙ read_digits-decimal 0 (d ∷ ds) rest (omega arith) hd e

abbrev IsPlain : ℕ → Type 0
IsPlain b = (b ≢ b'"') × (b ≢ b'\\')

read_string-plain :
    (before v rest : Bytes)
    → backslash_count before ≡ 0
    → All IsPlain v
    → read_string before (v ++ b'"' ∷ rest) ≡ some (reverse before ++ v)
unfolding read_string backslash_count
read_string-plain before [] rest z h =
    let even : (backslash_count before % 2 == 0) ≡ true = ground arith in
    rw even (ap (λ l. some l) (sym (append-nil (reverse before))))
read_string-plain before (b ∷ v) rest z h =
    let other : (b == b'"') ≡ false = ground arith in
    let none' : backslash_count (b ∷ before) ≡ 0 = ground arith in
    rw other (
      read_string-plain (b ∷ before) v rest none' h.1
      ∙ ap (λ l. some l)
          (ap (λ l. l ++ v) (reverse-cons b before) ∙ append_assoc (reverse before) (b ∷ []) v))

count-nil : backslash_count [] ≡ 0
unfolding backslash_count
count-nil = refl

-- Where the value of a key is a quoted text without quotes and backslashes, it is read as that text.
pub json_get_string-plain :
    (json key ws v rest : Bytes)
    → json_find_key json key ≡ some (ws ++ b'"' ∷ (v ++ b'"' ∷ rest))
    → All (λ b. is_json_whitespace b ≡ true) ws
    → All IsPlain v
    → json_get_string json key ≡ some v
unfolding json_get_string
json_get_string-plain json key ws v rest found hw hv =
    let skipped =
      skip_whitespace-append ws (b'"' ∷ (v ++ b'"' ∷ rest)) hw
      ∙ skip_whitespace-stop b'"' (v ++ b'"' ∷ rest) refl in
    rw found (rw skipped (read_string-plain [] v rest count-nil hv))
