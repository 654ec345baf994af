-- ===== src/Attestation/Base64.antt =====
-- contracts/stylus/attestation-verifier/src/lib.rs: decoding of base64url without padding. The table
-- is written as its ranges; `none` stands for its negative entries and for a byte above it.
pub mod Laws
use synddb.Prelude.{
  ℕ, ◌+◌, ◌-◌, ◌*◌, ◌/◌, ◌%◌, ◌&&◌, String, Option, none, some, [], ◌∷◌, ◌++◌, map, length, leb,
  ◌==◌, if◌then◌else◌, Result, ok, err, ◌>>=◌,
}
use synddb.Shared.Bytes.{Bytes}

abbrev pub pad_sign : ℕ
pad_sign = b'='

unfoldable pub decode_table : ℕ → Option ℕ
decode_table c =
    if leb b'A' c && leb c b'Z'
    then some (c - b'A')
    else if leb b'a' c && leb c b'z'
    then some (c - b'a' + 26)
    else if leb b'0' c && leb c b'9'
    then some (c - b'0' + 52)
    else if c == b'+'
    then some 62
    else if c == b'/'
    then some 63
    else none

abbrev pub digit_or_error : Option ℕ → Result ℕ String
digit_or_error none = err "Invalid base64 character"
digit_or_error (some v) = ok v

-- One round of the loop. The parts that `|` joins share no bits, so they are added.
unfoldable pub decode_group : ℕ → ℕ → ℕ → ℕ → Result Bytes String
unfolding decode_table
decode_group a b c d = do
  va ← digit_or_error (decode_table a)
  vb ← digit_or_error (decode_table b)
  let first = va * 4 % 256 + vb / 16
  if c == pad_sign then ok (first ∷ []) else (do
    vc ← digit_or_error (decode_table c)
    let second = vb * 16 % 256 + vc / 4
    if d == pad_sign then ok (first ∷ second ∷ []) else (do
      vd ← digit_or_error (decode_table d)
      ok (first ∷ second ∷ (vc * 64 % 256 + vd) ∷ [])))

-- The loop over the groups of four; the length test excludes the other cases.
unfoldable pub decode_groups : Bytes → Result Bytes String
unfolding decode_group
decode_groups (a ∷ b ∷ c ∷ d ∷ rest) = do
  group ← decode_group a b c d
  more ← decode_groups rest
  ok (group ++ more)
decode_groups (a ∷ b ∷ c ∷ []) = ok []
decode_groups (a ∷ b ∷ []) = ok []
decode_groups (a ∷ []) = ok []
decode_groups [] = ok []

unfoldable pub base64_decode : Bytes → Result Bytes String
unfolding decode_groups
base64_decode input =
    if length input % 4 == 0 then decode_groups input else err "Invalid base64 length"

abbrev pub standard : ℕ → ℕ
standard c = if c == b'-' then b'+' else if c == b'_' then b'/' else c

abbrev pub padding : ℕ → Bytes
padding r = if r == 2 then pad_sign ∷ pad_sign ∷ [] else if r == 3 then pad_sign ∷ [] else []

unfoldable pub base64url_decode : Bytes → Result Bytes String
unfolding base64_decode
base64url_decode input =
    let converted = map standard input in
    base64_decode (converted ++ padding (length converted % 4))
