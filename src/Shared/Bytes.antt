-- ===== src/Shared/Bytes.antt =====
-- Bytes, and u64 in big-endian order (`to_be_bytes`).
use Prim.Native.Char.{code}
use Prim.Native.String.{String}
use synddb.Prelude.{
  ℕ, zero, suc, ◌+◌, ◌*◌, ◌/◌, ◌%◌, ◌<◌, ◌≡◌, refl, sym, ap, ◌∙◌, Bool, true, false, ◌&&◌, List, [],
  ◌∷◌, ◌++◌, arith, length, ◌==◌, length-append, u64_mod,
}

abbrev pub Bytes : Type 0
Bytes = List ℕ

-- The bytes of an ASCII text.
abbrev pub ascii : String → Bytes
ascii String.[] = []
ascii (String.◌∷◌ c s) = code c ∷ ascii s

unfoldable pub bytes_eq : Bytes → Bytes → Bool
bytes_eq [] [] = true
bytes_eq [] (b ∷ bs) = false
bytes_eq (a ∷ as') [] = false
bytes_eq (a ∷ as') (b ∷ bs) = a == b && bytes_eq as' bs

pub bytes_eq→eq : (a b : Bytes) → bytes_eq a b ≡ true → a ≡ b
unfolding bytes_eq
bytes_eq→eq [] [] h = refl
bytes_eq→eq [] (y ∷ b) h = cc
bytes_eq→eq (x ∷ a) [] h = cc
bytes_eq→eq (x ∷ a) (y ∷ b) h = ground (arith, bytes_eq→eq a b)

pub bytes_eq_refl : (a : Bytes) → bytes_eq a a ≡ true
unfolding bytes_eq
bytes_eq_refl [] = refl
bytes_eq_refl (x ∷ a) = ground (arith, bytes_eq_refl a)

-- The last `w` bytes of a number, the most significant first.
unfoldable pub be_bytes : ℕ → ℕ → Bytes
be_bytes zero n = []
be_bytes (suc w) n = be_bytes w (n / 256) ++ n % 256 ∷ []

unfoldable pub from_be : ℕ → Bytes → ℕ
from_be acc [] = acc
from_be acc (b ∷ bs) = from_be (acc * 256 + b) bs

from_be-append : (acc : ℕ) (as' bs : Bytes) → from_be acc (as' ++ bs) ≡ from_be (from_be acc as') bs
unfolding from_be
from_be-append acc [] bs = refl
from_be-append acc (a ∷ as') bs = from_be-append (acc * 256 + a) as' bs

abbrev limit : ℕ → ℕ
limit zero = 1
limit (suc w) = 256 * limit w

from_be-be_bytes : (w n : ℕ) → n < limit w → from_be 0 (be_bytes w n) ≡ n
unfolding be_bytes from_be
from_be-be_bytes zero n h = omega arith
from_be-be_bytes (suc w) n h =
    from_be-append 0 (be_bytes w (n / 256)) (n % 256 ∷ [])
    ∙ omega (arith, from_be-be_bytes w (n / 256))

pub length-be_bytes : (w n : ℕ) → length (be_bytes w n) ≡ w
unfolding be_bytes
length-be_bytes zero n = refl
length-be_bytes (suc w) n =
    omega (arith, length-append (be_bytes w (n / 256)) (n % 256 ∷ []), length-be_bytes w (n / 256))

-- The encoding of a u64 determines it.
pub be_bytes-injective : (m n : ℕ) → m < u64_mod → n < u64_mod → be_bytes 8 m ≡ be_bytes 8 n → m ≡ n
be_bytes-injective m n hm hn e =
    sym (from_be-be_bytes 8 m hm) ∙ ap (from_be 0) e ∙ from_be-be_bytes 8 n hn

-- Equal concatenations of parts of equal length have equal parts.
pub append_split :
    (a a' b b' : Bytes) → length a ≡ length a' → a ++ b ≡ a' ++ b' → (a ≡ a') × (b ≡ b')
append_split [] [] b b' h e = (refl, e)
append_split [] (x ∷ a') b b' h e = absurd (omega arith)
append_split (x ∷ a) [] b b' h e = absurd (omega arith)
append_split (x ∷ a) (y ∷ a') b b' h e =
    let rest = append_split a a' b b' (omega arith) (ground arith) in
    let head : x ≡ y = ground arith in (cc (head, rest.0), rest.1)
