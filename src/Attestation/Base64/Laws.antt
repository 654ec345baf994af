-- ===== src/Attestation/Base64/Laws.antt =====
-- Decoding against an encoder: base64url of RFC 4648, section 5, without padding.
use synddb.Prelude.{
  ℕ, ◌+◌, ◌-◌, ◌*◌, ◌/◌, ◌%◌, ◌<◌, ◌≡◌, ◌≢◌, refl, ap, some, [], ◌∷◌, ◌++◌, map, length, ltb, ◌==◌,
  if◌then◌else◌, ok, arith, All, length-append, false, true, suc,
}
use synddb.Shared.Bytes.{Bytes}
use synddb.Attestation.Base64.{
  decode_table, decode_group, decode_groups, base64_decode, standard, padding, base64url_decode,
}

abbrev pub IsByte : ℕ → Type 0
IsByte b = b < 256

unfoldable pub encode_digit : ℕ → ℕ
encode_digit n =
    if ltb n 26
    then n + b'A'
    else if ltb n 52
    then n - 26 + b'a'
    else if ltb n 62
    then n - 52 + b'0'
    else if n == 62
    then b'-'
    else b'_'

unfoldable pub encode : Bytes → Bytes
encode [] = []
encode (x ∷ []) = encode_digit (x / 4) ∷ encode_digit (x % 4 * 16) ∷ []
encode (x ∷ y ∷ []) =
    encode_digit (x / 4) ∷ encode_digit (x % 4 * 16 + y / 16) ∷ encode_digit (y % 16 * 4) ∷ []
encode (x ∷ y ∷ z ∷ rest) =
    encode_digit (x / 4)
    ∷ encode_digit (x % 4 * 16 + y / 16)
    ∷ encode_digit (y % 16 * 4 + z / 64)
    ∷ encode_digit (z % 64)
    ∷ encode rest

-- A digit is read back, and it is not the padding sign.
digit-read : (n : ℕ) → n < 64 → decode_table (standard (encode_digit n)) ≡ some n
unfolding decode_table encode_digit
digit-read n h = ground arith

digit-ne-pad : (n : ℕ) → n < 64 → (standard (encode_digit n) == b'=') ≡ false
unfolding encode_digit
digit-ne-pad n h = ground arith

group-three :
    (p q r s : ℕ)
    → p < 64
    → q < 64
    → r < 64
    → s < 64
    → decode_group
        (standard (encode_digit p))
        (standard (encode_digit q))
        (standard (encode_digit r))
        (standard (encode_digit s))
      ≡ ok ((p * 4 % 256 + q / 16) ∷ (q * 16 % 256 + r / 4) ∷ (r * 64 % 256 + s) ∷ [])
unfolding decode_group
group-three p q r s hp hq hr hs = rw (
  digit-read p hp,
  digit-read q hq,
  digit-ne-pad r hr,
  digit-read r hr,
  digit-ne-pad s hs,
  digit-read s hs,
)

group-two :
    (p q r : ℕ)
    → p < 64
    → q < 64
    → r < 64
    → decode_group
        (standard (encode_digit p))
        (standard (encode_digit q))
        (standard (encode_digit r))
        b'='
      ≡ ok ((p * 4 % 256 + q / 16) ∷ (q * 16 % 256 + r / 4) ∷ [])
unfolding decode_group
group-two p q r hp hq hr = rw (digit-read p hp, digit-read q hq, digit-ne-pad r hr, digit-read r hr)

group-one :
    (p q : ℕ)
    → p < 64
    → q < 64
    → decode_group (standard (encode_digit p)) (standard (encode_digit q)) b'=' b'='
      ≡ ok ((p * 4 % 256 + q / 16) ∷ [])
unfolding decode_group
group-one p q hp hq = rw (digit-read p hp, digit-read q hq)

abbrev padded : Bytes → Bytes
padded s = s ++ padding (length s % 4)

padding-four : (n : ℕ) → padding ((n + 4) % 4) ≡ padding (n % 4)
padding-four n = let e : (n + 4) % 4 ≡ n % 4 = omega arith in rw e

decode_groups-encode :
    (bs : Bytes) → All IsByte bs → decode_groups (padded (map standard (encode bs))) ≡ ok bs
unfolding encode decode_groups
decode_groups-encode [] h = refl
decode_groups-encode (x ∷ []) h =
    let value : x / 4 * 4 % 256 + x % 4 * 16 / 16 ≡ x = omega arith in
    rw (group-one (x / 4) (x % 4 * 16) (omega arith) (omega arith), value)
decode_groups-encode (x ∷ y ∷ []) h =
    let first : x / 4 * 4 % 256 + (x % 4 * 16 + y / 16) / 16 ≡ x = omega arith in
    let second : (x % 4 * 16 + y / 16) * 16 % 256 + y % 16 * 4 / 4 ≡ y = omega arith in
    rw (
      group-two (x / 4) (x % 4 * 16 + y / 16) (y % 16 * 4) (omega arith) (omega arith)
          (omega arith),
      first,
      second,
    )
decode_groups-encode (x ∷ y ∷ z ∷ rest) h =
    let first : x / 4 * 4 % 256 + (x % 4 * 16 + y / 16) / 16 ≡ x = omega arith in
    let second : (x % 4 * 16 + y / 16) * 16 % 256 + (y % 16 * 4 + z / 64) / 4 ≡ y = omega arith in
    let third : (y % 16 * 4 + z / 64) * 64 % 256 + z % 64 ≡ z = omega arith in
    let same : padding ((length (map standard (encode rest)) + 4) % 4)
        ≡ padding (length (map standard (encode rest)) % 4) =
      padding-four (length (map standard (encode rest))) in
    let four : suc (suc (suc (suc (length (map standard (encode rest))))))
        ≡ length (map standard (encode rest)) + 4 =
      omega arith in
    rw (
      group-three (x / 4) (x % 4 * 16 + y / 16) (y % 16 * 4 + z / 64) (z % 64) (omega arith)
          (omega arith) (omega arith) (omega arith),
      first,
      second,
      third,
      four,
      same,
      decode_groups-encode rest h.1.1.1,
    )

length-encode : (bs : Bytes) → length (encode bs) % 4 ≢ 1
unfolding encode
length-encode [] = omega arith
length-encode (x ∷ []) = omega arith
length-encode (x ∷ y ∷ []) = omega arith
length-encode (x ∷ y ∷ z ∷ rest) = let ih = length-encode rest in λ e. ih (omega (arith, e))

length-map : (f : ℕ → ℕ) (bs : Bytes) → length (map f bs) ≡ length bs
length-map f [] = refl
length-map f (b ∷ bs) = ap suc (length-map f bs)

length-padded : (s : Bytes) → length s % 4 ≢ 1 → (length (padded s) % 4 == 0) ≡ true
length-padded s h = ground (arith, length-append s (padding (length s % 4)))

-- Decoding the unpadded base64url of bytes gives the bytes.
pub base64url_decode-encode : (bs : Bytes) → All IsByte bs → base64url_decode (encode bs) ≡ ok bs
unfolding base64url_decode base64_decode
base64url_decode-encode bs h =
    let s = map standard (encode bs) in
    let odd : length s % 4 ≢ 1 =
      λ e. length-encode bs (omega (arith, e, length-map standard (encode bs))) in
    rw (length-padded s odd, decode_groups-encode bs h)
