-- ===== src/Attestation/Jwt.antt =====
-- contracts/stylus/attestation-verifier/src/lib.rs: the parts of a JSON web token.
pub mod Laws
use synddb.Prelude.{
  ℕ, ◌&&◌, Bool, true, false, String, Option, none, some, List, [], ◌∷◌, ◌++◌, ltb, leb, ◌==◌,
  if◌then◌else◌, Result, ok, err, ◌>>=◌, ◌>>◌,
}
use synddb.Shared.Bytes.{Bytes}
use synddb.Attestation.Base64.{base64url_decode}

-- The bytes that must follow a first byte in UTF-8, each in a range.
unfoldable pub continuation : ℕ → Option (List (ℕ × ℕ))
continuation b =
    if ltb b 0x80
    then some []
    else if leb 0xc2 b && leb b 0xdf
    then some ((0x80, 0xbf) ∷ [])
    else if b == 0xe0
    then some ((0xa0, 0xbf) ∷ (0x80, 0xbf) ∷ [])
    else if b == 0xed
    then some ((0x80, 0x9f) ∷ (0x80, 0xbf) ∷ [])
    else if leb 0xe1 b && leb b 0xef
    then some ((0x80, 0xbf) ∷ (0x80, 0xbf) ∷ [])
    else if b == 0xf0
    then some ((0x90, 0xbf) ∷ (0x80, 0xbf) ∷ (0x80, 0xbf) ∷ [])
    else if leb 0xf1 b && leb b 0xf3
    then some ((0x80, 0xbf) ∷ (0x80, 0xbf) ∷ (0x80, 0xbf) ∷ [])
    else if b == 0xf4
    then some ((0x80, 0x8f) ∷ (0x80, 0xbf) ∷ (0x80, 0xbf) ∷ [])
    else none

-- The standard library's `from_utf8`, with the ranges that the bytes to come must lie in.
unfoldable pub is_utf8 : List (ℕ × ℕ) → Bytes → Bool
unfolding continuation
is_utf8 [] [] = true
is_utf8 (range ∷ ranges) [] = false
is_utf8 [] (b ∷ bs) = elim (continuation b) [ none ↦ false | some ranges ↦ is_utf8 ranges bs ]
is_utf8 ((lo, hi) ∷ ranges) (b ∷ bs) = leb lo b && leb b hi && is_utf8 ranges bs

abbrev pub dot : ℕ
dot = b'.'

-- A part and what is behind the first dot, if there is one.
abbrev pub onto : ℕ → Bytes × Option Bytes → Bytes × Option Bytes
onto b (part, rest) = (b ∷ part, rest)

unfoldable pub split_dot : Bytes → Bytes × Option Bytes
split_dot [] = ([], none)
split_dot (b ∷ bs) = let more = split_dot bs in if b == dot then ([], some bs) else onto b more

abbrev pub or_missing : String → Option Bytes → Result Bytes String
or_missing e none = err e
or_missing e (some b) = ok b

pub record ParsedJwt : Type 0 where
  pub header_json : Bytes
  pub payload_json : Bytes
  pub signature : Bytes
  pub signing_input : Bytes

abbrev pub valid_text : Bytes → Result (Unit {0}) String
valid_text jwt_bytes = if is_utf8 [] jwt_bytes then ok tt else err "Invalid UTF-8"

-- `splitn(3, '.')`: the third part is all that is behind the second dot.
unfoldable pub parse_jwt : Bytes → Result ParsedJwt String
unfolding is_utf8 split_dot base64url_decode
parse_jwt jwt_bytes = do
  valid_text jwt_bytes
  let header = split_dot jwt_bytes
  behind ← or_missing "Missing payload" header.1
  let payload = split_dot behind
  signature_b64 ← or_missing "Missing signature" payload.1
  header_json ← base64url_decode header.0
  payload_json ← base64url_decode payload.0
  signature ← base64url_decode signature_b64
  ok (record {
    header_json = header_json;
    payload_json = payload_json;
    signature = signature;
    signing_input = header.0 ++ dot ∷ payload.0;
  })
