-- ===== src/Attestation/Jwt/Laws.antt =====
-- A token put together from its parts is parsed into them.
use synddb.Prelude.{
  ℕ, ◌+◌, ◌/◌, ◌%◌, ◌*◌, ◌<◌, ◌≡◌, ◌≢◌, refl, true, false, some, [], ◌∷◌, ◌++◌, ltb, ◌==◌, ok,
  arith, All, All-append,
}
use synddb.Shared.Bytes.{Bytes}
use synddb.Attestation.Base64.Laws.{IsByte, encode, encode_digit, base64url_decode-encode}
use synddb.Attestation.Jwt.{continuation, is_utf8, dot, split_dot, parse_jwt}

-- A character of base64url.
abbrev IsPlain : ℕ → Type 0
IsPlain b = (b < 128) × (b ≢ 46)

encode_digit-IsPlain : (n : ℕ) → n < 64 → IsPlain (encode_digit n)
unfolding encode_digit
encode_digit-IsPlain n h = (ground arith, λ e. ground arith)

encode-IsPlain : (bs : Bytes) → All IsByte bs → All IsPlain (encode bs)
unfolding encode
encode-IsPlain [] h = tt
encode-IsPlain (x ∷ []) h = (
  encode_digit-IsPlain (x / 4) (omega arith),
  (encode_digit-IsPlain (x % 4 * 16) (omega arith), tt),
)
encode-IsPlain (x ∷ y ∷ []) h = (
  encode_digit-IsPlain (x / 4) (omega arith),
  (
    encode_digit-IsPlain (x % 4 * 16 + y / 16) (omega arith),
    (encode_digit-IsPlain (y % 16 * 4) (omega arith), tt),
  ),
)
encode-IsPlain (x ∷ y ∷ z ∷ rest) h = (
  encode_digit-IsPlain (x / 4) (omega arith),
  (
    encode_digit-IsPlain (x % 4 * 16 + y / 16) (omega arith),
    (
      encode_digit-IsPlain (y % 16 * 4 + z / 64) (omega arith),
      (encode_digit-IsPlain (z % 64) (omega arith), encode-IsPlain rest h.1.1.1),
    ),
  ),
)

split_dot-plain :
    (bs rest : Bytes) → All IsPlain bs → split_dot (bs ++ dot ∷ rest) ≡ (bs, some rest)
unfolding split_dot
split_dot-plain [] rest h = refl
split_dot-plain (b ∷ bs) rest h =
    let other : (b == dot) ≡ false = ground arith in rw (other, split_dot-plain bs rest h.1)

is_utf8-ascii : (bs : Bytes) → All (λ b. b < 128) bs → is_utf8 [] bs ≡ true
unfolding is_utf8 continuation
is_utf8-ascii [] h = refl
is_utf8-ascii (b ∷ bs) h =
    let low : ltb b 0x80 ≡ true = ground arith in rw (low, is_utf8) (is_utf8-ascii bs h.1)

plain_ascii : (bs : Bytes) → All IsPlain bs → All (λ b. b < 128) bs
plain_ascii [] h = tt
plain_ascii (b ∷ bs) h = (h.0.0, plain_ascii bs h.1)

-- Encoding a header, a payload and a signature, with dots between, gives a token that parses into
-- them, and whose signing input is what stands before the second dot.
pub parse_jwt-encode :
    (header payload signature : Bytes)
    → All IsByte header
    → All IsByte payload
    → All IsByte signature
    → parse_jwt (encode header ++ dot ∷ (encode payload ++ dot ∷ encode signature))
      ≡ ok (record {
        header_json = header;
        payload_json = payload;
        signature = signature;
        signing_input = encode header ++ dot ∷ encode payload;
      })
unfolding parse_jwt
parse_jwt-encode header payload signature hh hp hs =
    let ph = encode-IsPlain header hh in
    let pp = encode-IsPlain payload hp in
    let ps = encode-IsPlain signature hs in
    let utf8 = is_utf8-ascii (encode header ++ dot ∷ (encode payload ++ dot ∷ encode signature)) (
      All-append (λ b. b < 128) (encode header) _ (plain_ascii _ ph)
        (
          omega arith,
          All-append (λ b. b < 128) (encode payload) _ (plain_ascii _ pp)
              (omega arith, plain_ascii _ ps),
        )) in
    let first = split_dot-plain (encode header) (encode payload ++ dot ∷ encode signature) ph in
    let second = split_dot-plain (encode payload) (encode signature) pp in
    rw (
      utf8,
      first,
      second,
      base64url_decode-encode header hh,
      base64url_decode-encode payload hp,
      base64url_decode-encode signature hs,
    )
