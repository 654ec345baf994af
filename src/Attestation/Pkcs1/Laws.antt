-- ===== src/Attestation/Pkcs1/Laws.antt =====
-- Exactly the padded hash is accepted.
use synddb.Prelude.{
  ℕ, zero, suc, ◌+◌, ◌-◌, ◌≤◌, ◌≡◌, ◌↔◌, refl, sym, ap, ◌∙◌, true, false, none, some, [], ◌∷◌, ◌++◌,
  length, take, drop, ltb, ◌==◌, arith, length-append, take-append-drop, Bool-cases, Option-cases,
  inl, inr, take-all,
}
use synddb.Shared.Bytes.{Bytes, bytes_eq, bytes_eq→eq, bytes_eq_refl}
use synddb.Attestation.Pkcs1.{
  digest_info, find_separator, header_ok, digest_ok, verify_pkcs1v15_sha256,
}

abbrev pub replicate : ℕ → ℕ → Bytes
replicate zero b = []
replicate (suc n) b = b ∷ replicate n b

-- The separator lies after a run of 255.
find_separator-eq-some :
    (i p : ℕ) (bs : Bytes)
    → find_separator i bs ≡ some p
    → (k : ℕ) × (rest : Bytes) × (p ≡ i + k) × (bs ≡ replicate k 255 ++ 0 ∷ rest)
unfolding find_separator
find_separator-eq-some i p [] h = absurd cc
find_separator-eq-some i p (b ∷ bs) h = elim (Bool-cases (b == 0)) [
  | inl z ↦
      let e : some i ≡ some p = rw z at h in
      let zero' : b ≡ 0 = ground arith in (0, bs, ground arith, cc zero')
  | inr nz ↦ elim (Bool-cases (b == 255)) [
    | inl f ↦
        let e : find_separator (i + 1) bs ≡ some p = rw (nz, f) at h in
        let (k, rest, ep, eb) = find_separator-eq-some (i + 1) p bs e in
        let full : b ≡ 255 = ground arith in (suc k, rest, omega (arith, ep), cc (full, eb))
    | inr nf ↦ let e : none ≡ some p = rw (nz, nf) at h in absurd cc
  ]
]

find_separator-replicate :
    (i k : ℕ) (rest : Bytes) → find_separator i (replicate k 255 ++ 0 ∷ rest) ≡ some (i + k)
unfolding find_separator
find_separator-replicate i zero rest = ground arith
find_separator-replicate i (suc k) rest =
    find_separator-replicate (i + 1) k rest ∙ ap (λ n. some n) (omega arith)

drop-nil : (k : ℕ) → ◌≡◌ {A = Bytes} [] (drop k [])
drop-nil zero = refl
drop-nil (suc k) = refl

drop-add : (m n : ℕ) (bs : Bytes) → drop (m + n) bs ≡ drop n (drop m bs)
drop-add zero n bs = ap (λ k. drop k bs) (omega arith)
drop-add (suc m) n [] = let e : suc m + n ≡ suc (m + n) = omega arith in rw e (drop-nil n)
drop-add (suc m) n (b ∷ bs) =
    let e : suc m + n ≡ suc (m + n) = omega arith in rw e (drop-add m n bs)

length-replicate : (k b : ℕ) → length (replicate k b) ≡ k
length-replicate zero b = refl
length-replicate (suc k) b = ap (λ n. suc n) (length-replicate k b)

drop-replicate : (k : ℕ) (rest : Bytes) → drop (k + 1) (replicate k 255 ++ 0 ∷ rest) ≡ rest
drop-replicate zero rest = refl
drop-replicate (suc k) rest =
    let e : suc k + 1 ≡ suc (k + 1) = omega arith in rw e (drop-replicate k rest)

-- What is left after the separator.
drop-padded :
    (k : ℕ) (rest : Bytes) → drop (2 + k + 1) (0 ∷ 1 ∷ (replicate k 255 ++ 0 ∷ rest)) ≡ rest
drop-padded k rest =
    let e : 2 + k + 1 ≡ suc (suc (k + 1)) = omega arith in rw e (drop-replicate k rest)

digest_ok_parts :
    (d h : Bytes) (p : ℕ)
    → digest_ok d h (some p) ≡ true
    → (10 ≤ p)
      × (length d - (p + 1) ≡ 51)
      × (bytes_eq (take 19 (drop (p + 1) d)) digest_info ≡ true)
      × (bytes_eq (take 32 (drop (p + 1 + 19) d)) h ≡ true)
digest_ok_parts d h p e = ground arith

-- The digest and the hash, once what follows the separator is known.
rest_exact :
    (rest h : Bytes)
    → length rest ≡ 51
    → take 19 rest ≡ digest_info
    → take 32 (drop 19 rest) ≡ h
    → rest ≡ digest_info ++ h
rest_exact rest h n e f =
    let split = take-append-drop 19 rest in
    let long : length (drop 19 rest) ≤ 32 =
      omega (arith, ap length split, length-append (take 19 rest) (drop 19 rest), ap length e) in
    let whole = take-all 32 (drop 19 rest) long in
    sym split ∙ ap (λ t. t ++ drop 19 rest) e ∙ ap (λ t. digest_info ++ t) (sym whole ∙ f)

-- The bytes of a padded hash: 0, 1, a run of 255, 0, the digest's name and the hash.
abbrev pub padded_hash : ℕ → Bytes → Bytes
padded_hash k h = 0 ∷ 1 ∷ (replicate k 255 ++ 0 ∷ (digest_info ++ h))

accepted_parts :
    (d h : Bytes)
    → verify_pkcs1v15_sha256 d h ≡ true
    → (header_ok d ≡ true) × (digest_ok d h (find_separator 2 (drop 2 d)) ≡ true)
unfolding verify_pkcs1v15_sha256
accepted_parts d h e = elim (Bool-cases (ltb (length d) 62)) [
  | inl short ↦ let f : false ≡ true = rw short at e in absurd cc
  | inr long ↦ elim (Bool-cases (header_ok d)) [
    | inl good ↦ (good, rw (long, good) at e)
    | inr bad ↦ let f : false ≡ true = rw (long, bad) at e in absurd cc
  ]
]

accepted :
    (d h : Bytes)
    → header_ok d ≡ true
    → digest_ok d h (find_separator 2 (drop 2 d)) ≡ true
    → (k : ℕ) × (8 ≤ k) × (d ≡ padded_hash k h)
accepted [] h e f = absurd cc
accepted (a ∷ []) h e f = absurd cc
accepted (a ∷ b ∷ bs) h e f = elim (Option-cases (find_separator 2 bs)) [
  | inl none' ↦ let g : false ≡ true = rw none' at f in absurd cc
  | inr (p, some') ↦
      let (k, rest, ep, eb) = find_separator-eq-some 2 p bs some' in
      let g : digest_ok (a ∷ b ∷ bs) h (some p) ≡ true = rw some' at f in
      let (far, size, name, hash) = digest_ok_parts (a ∷ b ∷ bs) h p g in
      let heads : (a ≡ 0) × (b ≡ 1) = ground arith in
      let whole : (a ∷ b ∷ bs) ≡ 0 ∷ 1 ∷ (replicate k 255 ++ 0 ∷ rest) =
        cc (heads.0, heads.1, eb) in
      let after : drop (p + 1) (a ∷ b ∷ bs) ≡ rest =
        ap (λ l. drop (p + 1) l) whole
        ∙ ap (λ n. drop (n + 1) (0 ∷ 1 ∷ (replicate k 255 ++ 0 ∷ rest))) ep
        ∙ drop-padded k rest in
      let name' : take 19 rest ≡ digest_info =
        ap (take 19) (sym after) ∙ bytes_eq→eq _ digest_info name in
      let hash' : take 32 (drop 19 rest) ≡ h =
        ap (λ l. take 32 (drop 19 l)) (sym after)
        ∙ ap (take 32) (sym (drop-add (p + 1) 19 (a ∷ b ∷ bs)))
        ∙ bytes_eq→eq _ h hash in
      let size' : length rest ≡ 51 = omega (
        arith,
        ap length whole,
        size,
        length-append (replicate k 255) (0 ∷ rest),
        length-replicate k 255,
        ep,
      ) in
      (
        k,
        omega (arith, far, ep),
        whole ∙ ap (λ r. 0 ∷ 1 ∷ (replicate k 255 ++ 0 ∷ r)) (rest_exact rest h size' name' hash'),
      )
]

length-padded_hash : (k : ℕ) (h : Bytes) → length (padded_hash k h) ≡ k + 22 + length h
length-padded_hash k h = omega (
  arith,
  length-append (replicate k 255) (0 ∷ (digest_info ++ h)),
  length-replicate k 255,
  length-append digest_info h,
)

padded_hash-ok :
    (k : ℕ) (h : Bytes)
    → 8 ≤ k
    → length h ≡ 32
    → digest_ok (padded_hash k h) h (some (2 + k)) ≡ true
padded_hash-ok k h hk hl =
    let after = drop-padded k (digest_info ++ h) in
    let far : ltb (2 + k) 10 ≡ false = ground arith in
    let size : (length (padded_hash k h) - (2 + k + 1) == 19 + 32) ≡ true =
      ground (arith, length-padded_hash k h) in
    let name : bytes_eq (take 19 (drop (2 + k + 1) (padded_hash k h))) digest_info ≡ true =
      ap (λ l. bytes_eq (take 19 l) digest_info) after ∙ bytes_eq_refl digest_info in
    let hash : bytes_eq (take 32 (drop (2 + k + 1 + 19) (padded_hash k h))) h ≡ true =
      ap (λ l. bytes_eq (take 32 l) h)
        (drop-add (2 + k + 1) 19 (padded_hash k h) ∙ ap (drop 19) after)
      ∙ ap (λ l. bytes_eq l h) (take-all 32 h (omega (arith, hl)))
      ∙ bytes_eq_refl h in
    rw (far, size, name, hash) refl

-- For a hash of 32 bytes the check accepts exactly the padded hashes with at least 8 bytes of 255.
pub verify_pkcs1v15_sha256_iff :
    (d h : Bytes)
    → length h ≡ 32
    → (verify_pkcs1v15_sha256 d h ≡ true) ↔ ((k : ℕ) × (8 ≤ k) × (d ≡ padded_hash k h))
unfolding verify_pkcs1v15_sha256
verify_pkcs1v15_sha256_iff d h hl = (
  λ e. let (header, digest) = accepted_parts d h e in accepted d h header digest,
  λ (k, hk, e).
      let long : ltb (length (padded_hash k h)) 62 ≡ false =
        ground (arith, length-padded_hash k h) in
      let found = find_separator-replicate 2 k (digest_info ++ h) in
      ap (λ x. verify_pkcs1v15_sha256 x h) e ∙ rw (long, found) (padded_hash-ok k h hk hl),
)
