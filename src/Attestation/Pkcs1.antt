-- ===== src/Attestation/Pkcs1.antt =====
-- contracts/stylus/attestation-verifier/src/lib.rs: the PKCS#1 v1.5 padding of an RSA signature over
-- a SHA-256 hash.
pub mod Laws
use synddb.Prelude.{
  ℕ, ◌+◌, ◌-◌, ◌&&◌, not, Bool, false, Option, none, some, [], ◌∷◌, length, take, drop, ltb, ◌==◌,
  if◌then◌else◌,
}
use synddb.Shared.Bytes.{Bytes, bytes_eq}

abbrev pub digest_info : Bytes
digest_info =
    0x30 ∷ 0x31 ∷ 0x30 ∷ 0x0d ∷ 0x06 ∷ 0x09 ∷ 0x60 ∷ 0x86 ∷ 0x48 ∷ 0x01 ∷ 0x65 ∷ 0x03 ∷ 0x04 ∷ 0x02
    ∷ 0x01 ∷ 0x05 ∷ 0x00 ∷ 0x04 ∷ 0x20 ∷ []

-- The loop for the separator, from position `i` on; `none` also where another byte ends it.
unfoldable pub find_separator : ℕ → Bytes → Option ℕ
find_separator i [] = none
find_separator i (byte ∷ bytes) =
    let later = find_separator (i + 1) bytes in
    if byte == 0 then some i else if byte == 255 then later else none

abbrev pub header_ok : Bytes → Bool
header_ok (a ∷ b ∷ rest) = a == 0 && b == 1
header_ok (a ∷ []) = false
header_ok [] = false

-- The checks once the separator is found.
abbrev pub digest_ok : Bytes → Bytes → Option ℕ → Bool
digest_ok decrypted expected_hash none = false
digest_ok decrypted expected_hash (some separator_pos) =
    let digest_start = separator_pos + 1 in
    let hash_start = digest_start + 19 in
    if ltb separator_pos 10
    then false
    else if not (length decrypted - digest_start == 19 + 32)
    then false
    else if not (bytes_eq (take 19 (drop digest_start decrypted)) digest_info)
    then false
    else bytes_eq (take 32 (drop hash_start decrypted)) expected_hash

unfoldable pub verify_pkcs1v15_sha256 : Bytes → Bytes → Bool
unfolding find_separator bytes_eq
verify_pkcs1v15_sha256 decrypted expected_hash =
    if ltb (length decrypted) 62
    then false
    else if header_ok decrypted
    then digest_ok decrypted expected_hash (find_separator 2 (drop 2 decrypted))
    else false
