-- ===== src/Attestation/Json.antt =====
-- contracts/stylus/attestation-verifier/src/lib.rs: reading single claims out of JSON text. An index
-- into the text stands as what is left of the text from it.
pub mod Keys
pub mod Values
use synddb.Prelude.{
  ℕ, zero, suc, ◌+◌, ◌-◌, ◌*◌, ◌%◌, ◌&&◌, ◌||◌, Bool, true, false, Option, none, some, [], ◌∷◌,
  ◌++◌, length, take, drop, ltb, leb, ◌==◌, if◌then◌else◌, u64_mod,
}
use mathlib.Core.List.{reverse}
use synddb.Shared.Bytes.{Bytes, bytes_eq}

abbrev pub is_json_whitespace : ℕ → Bool
is_json_whitespace b = b == b' ' || b == 9 || b == 10 || b == 13

unfoldable pub skip_whitespace : Bytes → Bytes
skip_whitespace [] = []
skip_whitespace (b ∷ bs) =
    let rest = skip_whitespace bs in if is_json_whitespace b then rest else b ∷ bs

abbrev pub starts_with : Bytes → Bytes → Bool
starts_with needle haystack = bytes_eq (take (length needle) haystack) needle

abbrev pub one_later : Option ℕ → Option ℕ
one_later none = none
one_later (some i) = some (i + 1)

-- `windows(..).position(..)`: a window at the end that is too short equals no needle.
unfoldable pub position : Bytes → Bytes → Option ℕ
unfolding bytes_eq
position needle [] = none
position needle (b ∷ bs) =
    let later = one_later (position needle bs) in
    if starts_with needle (b ∷ bs) then some 0 else later

unfoldable pub find_subsequence : Bytes → Bytes → Option ℕ
unfolding position
find_subsequence haystack needle =
    if ltb (length haystack) (length needle) then none else position needle haystack

abbrev pub after_colon : Bytes → Option Bytes
after_colon [] = none
after_colon (b ∷ bs) = if b == b':' then some bs else none

abbrev pub quoted : Bytes → Bytes
quoted key = b'"' ∷ (key ++ b'"' ∷ [])

-- The loop, from what is left of the text at `search_start`. Each round moves on by a byte at least,
-- so the length of the text is fuel enough.
unfoldable pub find_key_from : ℕ → Bytes → Bytes → Option Bytes
unfolding find_subsequence skip_whitespace
find_key_from zero pattern' rest = none
find_key_from (suc fuel) pattern' rest = elim (find_subsequence rest pattern') [
  | none ↦ none
  | some pos ↦
      let here = drop pos rest in
      elim (after_colon (skip_whitespace (drop (length pattern') here))) [
        | some value ↦ some value
        | none ↦ find_key_from fuel pattern' (drop 1 here)
      ]
]

unfoldable pub json_find_key : Bytes → Bytes → Option Bytes
unfolding find_key_from
json_find_key json key = find_key_from (suc (length json)) (quoted key) json

-- The backslashes right before a quote, in what was read of the string, the last byte first.
unfoldable pub backslash_count : Bytes → ℕ
backslash_count [] = 0
backslash_count (b ∷ bs) = let more = backslash_count bs in if b == b'\\' then more + 1 else 0

-- The loop for the closing quote.
unfoldable pub read_string : Bytes → Bytes → Option Bytes
unfolding backslash_count
read_string before [] = none
read_string before (b ∷ bs) =
    let later = read_string (b ∷ before) bs in
    if b == b'"' && backslash_count before % 2 == 0 then some (reverse before) else later

abbrev pub opened : Bytes → Option Bytes
opened [] = none
opened (b ∷ bs) = if b == b'"' then read_string [] bs else none

abbrev pub string_at : Option Bytes → Option Bytes
string_at none = none
string_at (some value) = opened (skip_whitespace value)

unfoldable pub json_get_string : Bytes → Bytes → Option Bytes
unfolding json_find_key read_string
json_get_string json key = string_at (json_find_key json key)

abbrev pub is_ascii_digit : ℕ → Bool
is_ascii_digit b = leb b'0' b && leb b b'9'

abbrev pub if_found : Bool → ℕ → Option ℕ
if_found true result = some result
if_found false result = none

-- The loop over the digits, with the checked operations on u64.
unfoldable pub read_digits : ℕ → Bool → Bytes → Option ℕ
read_digits result found [] = if_found found result
read_digits result found (b ∷ bs) =
    let next = result * 10 + (b - b'0') in
    let later = read_digits next true bs in
    if is_ascii_digit b
    then (if ltb (result * 10) u64_mod then (if ltb next u64_mod then later else none) else none)
    else if_found found result

abbrev pub number_at : Option Bytes → Option ℕ
number_at none = none
number_at (some value) = read_digits 0 false (skip_whitespace value)

unfoldable pub json_get_u64 : Bytes → Bytes → Option ℕ
unfolding json_find_key read_digits
json_get_u64 json key = number_at (json_find_key json key)

abbrev pub true_text : Bytes
true_text = b't' ∷ b'r' ∷ b'u' ∷ b'e' ∷ []

abbrev pub false_text : Bytes
false_text = b'f' ∷ b'a' ∷ b'l' ∷ b's' ∷ b'e' ∷ []

abbrev pub bool_at : Option Bytes → Option Bool
bool_at none = none
bool_at (some value) =
    let rest = skip_whitespace value in
    if starts_with true_text rest
    then some true
    else if starts_with false_text rest
    then some false
    else none

unfoldable pub json_get_bool : Bytes → Bytes → Option Bool
unfolding json_find_key bytes_eq
json_get_bool json key = bool_at (json_find_key json key)
