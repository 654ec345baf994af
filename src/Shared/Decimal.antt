-- ===== src/Shared/Decimal.antt =====
-- What the crates use of Rust's numbers and texts: `str::parse` of an unsigned number, decimal texts,
-- `split` and `strip_suffix`, on the bytes of a text.
pub mod Laws
use synddb.Prelude.{
  ℕ, zero, suc, ◌+◌, ◌-◌, ◌*◌, ◌/◌, ◌%◌, Bool, ◌&&◌, ltb, leb, ◌==◌, Option, none, some, List, [],
  ◌∷◌, ◌++◌, length, if◌then◌else◌,
}
use synddb.Shared.Bytes.{Bytes, bytes_eq}

abbrev pub is_digit : ℕ → Bool
is_digit c = leb 48 c && leb c 57

-- Digits up to the end, below the bound.
unfoldable pub read_all : ℕ → ℕ → Bytes → Option ℕ
read_all bound acc [] = some acc
read_all bound acc (c ∷ cs) =
    let next = acc * 10 + (c - 48) in
    let rest = read_all bound next cs in if is_digit c && ltb next bound then rest else none

abbrev pub read_some : ℕ → Bytes → Option ℕ
read_some bound [] = none
read_some bound (c ∷ cs) = read_all bound 0 (c ∷ cs)

-- A plus sign in front is allowed.
unfoldable pub parse : ℕ → Bytes → Option ℕ
unfolding read_all
parse bound [] = none
parse bound (c ∷ cs) = if c == 43 then read_some bound cs else read_all bound 0 (c ∷ cs)

-- At most `fuel` digits.
unfoldable pub to_decimal : ℕ → ℕ → Bytes
to_decimal zero n = []
to_decimal (suc fuel) n =
    let rest = to_decimal fuel (n / 10) in
    if ltb n 10 then (48 + n) ∷ [] else rest ++ (48 + n % 10) ∷ []

abbrev pub zeros : ℕ → Bytes
zeros zero = []
zeros (suc n) = 48 ∷ zeros n

-- `{:012}` of a u64, which has at most 20 digits.
unfoldable pub padded : ℕ → Bytes
unfolding to_decimal
padded n = let digits = to_decimal 20 n in zeros (12 - length digits) ++ digits

abbrev onto : ℕ → List Bytes → List Bytes
onto c [] = (c ∷ []) ∷ []
onto c (p ∷ ps) = (c ∷ p) ∷ ps

unfoldable pub split : ℕ → Bytes → List Bytes
split sep [] = [] ∷ []
split sep (c ∷ cs) = let rest = split sep cs in if c == sep then [] ∷ rest else onto c rest

abbrev pub put {ℓ} : {A : Type ℓ} → A → Option (List A) → Option (List A)
put c none = none
put c (some cs) = some (c ∷ cs)

unfoldable pub strip_suffix : Bytes → Bytes → Option Bytes
unfolding bytes_eq
strip_suffix suffix [] = if bytes_eq [] suffix then some [] else none
strip_suffix suffix (c ∷ cs) =
    let rest = strip_suffix suffix cs in if bytes_eq (c ∷ cs) suffix then some [] else put c rest
