-- ===== src/Relayer/Text.antt =====
-- What the relayer uses of Rust's texts: `trim` and `split`, over code points.
use Prim.Native.Char.{code}
use Prim.Native.String.{◌++◌ as text_append}
use synddb.Prelude.{ℕ, Bool, ◌||◌, ◌&&◌, leb, ◌==◌, str_eq, String, List, [], ◌∷◌, if◌then◌else◌}

-- The code points of the property White_Space.
abbrev pub is_whitespace : ℕ → Bool
is_whitespace c =
    (leb 9 c && leb c 13)
    || c == 32
    || c == 133
    || c == 160
    || c == 5_760
    || (leb 8_192 c && leb c 8_202)
    || c == 8_232
    || c == 8_233
    || c == 8_239
    || c == 8_287
    || c == 12_288

unfoldable pub trim_start : String → String
trim_start String.[] = String.[]
trim_start (String.◌∷◌ c s) =
    let rest = trim_start s in if is_whitespace (code c) then rest else String.◌∷◌ c s

abbrev pub is_empty : String → Bool
is_empty s = str_eq s ""

unfoldable pub trim_end : String → String
trim_end String.[] = String.[]
trim_end (String.◌∷◌ c s) =
    let rest = trim_end s in
    if is_empty rest && is_whitespace (code c) then String.[] else String.◌∷◌ c rest

unfoldable pub trim : String → String
unfolding trim_start trim_end
trim s = trim_end (trim_start s)

abbrev put_first : String → List String → List String
put_first c [] = c ∷ []
put_first c (s ∷ ss) = text_append c s ∷ ss

-- `split` at a character.
unfoldable pub split : ℕ → String → List String
split sep String.[] = "" ∷ []
split sep (String.◌∷◌ c s) =
    let rest = split sep s in
    if code c == sep then "" ∷ rest else put_first (String.◌∷◌ c String.[]) rest
