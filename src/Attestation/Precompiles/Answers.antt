-- ===== src/Attestation/Precompiles/Answers.antt =====
-- contracts/stylus/attestation-verifier/src/lib.rs: what the precompiled contracts are sent, and when
-- their answers are taken.
use synddb.Prelude.{
  ℕ, ◌≤◌, ◌≡◌, ◌↔◌, refl, sym, ap, ◌∙◌, ◌%◌, Option, none, some, ◌++◌, length, take, drop, leb,
  ◌==◌, Result, ok, err, ==_iff, leb→le, le→leb, Bool-cases, inl, inr,
}
use synddb.Shared.Bytes.{Bytes, be_bytes, from_be}
use synddb.Attestation.State.{VerifierError, Vm, ok_or}
use synddb.Attestation.Precompiles.{
  ecrecover_call, sha256_call, modexp_call, at_least_32, exactly_32, u32_mod,
}

module _ (vm : Vm) where
  -- The recovery contract, at address 1, is sent the hash and the three parts of the signature, each
  -- as a word of 32 bytes, and answers at least 32 bytes, whose last 20 of the first 32 are the
  -- signer's address.
  abbrev pub Recovers : ℕ → ℕ → ℕ → ℕ → ℕ → Type 0
  Recovers hash v r s signer =
      (result : Bytes) × (vm.static_call 1
          (be_bytes 32 hash ++ (be_bytes 32 v ++ (be_bytes 32 r ++ be_bytes 32 s)))
        ≡ some result)
      × (32 ≤ length result)
      × (from_be 0 (take 20 (drop 12 result)) ≡ signer)

  -- The hash contract, at address 2, is sent the text and answers 32 bytes.
  abbrev pub Hashes : Bytes → Bytes → Type 0
  Hashes text hash = (vm.static_call 2 text ≡ some hash) × (length hash ≡ 32)

  -- The exponentiation contract, at address 5, is sent the three lengths, each as a word of 32 bytes,
  -- and then the three numbers.
  abbrev pub Raises : Bytes → Bytes → Bytes → Bytes → Type 0
  Raises base exponent modulus result =
      vm.static_call 5 (
        be_bytes 32 (length base % u32_mod vm)
        ++ (be_bytes 32 (length exponent % u32_mod vm)
            ++ (be_bytes 32 (length modulus % u32_mod vm) ++ (base ++ (exponent ++ modulus)))))
      ≡ some result

  at_least_32_iff :
      (o : Option Bytes) (signer : ℕ)
      → (at_least_32 vm o ≡ ok signer) ↔ (
          (result : Bytes) × (o ≡ some result)
          × (32 ≤ length result)
          × (from_be 0 (take 20 (drop 12 result)) ≡ signer))
  at_least_32_iff o signer = (to o, from)
    where
      to :
          (x : Option Bytes)
          → at_least_32 vm x ≡ ok signer
          → (result : Bytes) × (x ≡ some result)
            × (32 ≤ length result)
            × (from_be 0 (take 20 (drop 12 result)) ≡ signer)
      to none e = cc
      to (some result) e = elim (Bool-cases (leb 32 (length result))) [
        | inl long ↦
            let f : ◌≡◌ {A = Result ℕ VerifierError} (ok (from_be 0 (take 20 (drop 12 result))))
                (ok signer) =
              rw long at e in
            (result, refl, leb→le 32 (length result) long, cc)
        | inr short ↦ let f : err _ ≡ ok signer = rw short at e in absurd cc
      ]

      from :
          ((result : Bytes) × (o ≡ some result)
            × (32 ≤ length result)
            × (from_be 0 (take 20 (drop 12 result)) ≡ signer))
          → at_least_32 vm o ≡ ok signer
      from (result, e, long, same) = rw (e, le→leb 32 (length result) long, same) refl

  pub ecrecover_call_iff :
      (hash v r s signer : ℕ)
      → (ecrecover_call vm hash v r s ≡ ok signer) ↔ Recovers hash v r s signer
  unfolding ecrecover_call
  ecrecover_call_iff hash v r s signer = at_least_32_iff _ signer

  exactly_32_iff :
      (o : Option Bytes) (hash : Bytes)
      → (exactly_32 vm o ≡ ok hash) ↔ ((o ≡ some hash) × (length hash ≡ 32))
  exactly_32_iff o hash = (to o, from)
    where
      to : (x : Option Bytes) → exactly_32 vm x ≡ ok hash → (x ≡ some hash) × (length hash ≡ 32)
      to none e = cc
      to (some result) e = elim (Bool-cases (length result == 32)) [
        | inl full ↦
            let f : ◌≡◌ {A = Result Bytes VerifierError} (ok result) (ok hash) = rw full at e in
            let same : result ≡ hash = cc in
            (
              ap (λ b. some b) same,
              ap (λ b. length b) (sym same) ∙ (==_iff (length result) 32).0 full,
            )
        | inr other ↦ let f : err _ ≡ ok hash = rw other at e in absurd cc
      ]

      from : (o ≡ some hash) × (length hash ≡ 32) → exactly_32 vm o ≡ ok hash
      from (e, full) = rw (e, (==_iff (length hash) 32).1 full) refl

  pub sha256_call_iff : (text hash : Bytes) → (sha256_call vm text ≡ ok hash) ↔ Hashes text hash
  unfolding sha256_call
  sha256_call_iff text hash = exactly_32_iff _ hash

  ok_or_iff : (o : Option Bytes) (e : VerifierError) (b : Bytes) → (ok_or o e ≡ ok b) ↔ (o ≡ some b)
  ok_or_iff o e b = (to o, λ h. rw h refl)
    where
      to : (x : Option Bytes) → ok_or x e ≡ ok b → x ≡ some b
      to none h = cc
      to (some y) h = cc

  pub modexp_call_iff :
      (base exponent modulus result : Bytes)
      → (modexp_call vm base exponent modulus ≡ ok result) ↔ Raises base exponent modulus result
  unfolding modexp_call
  modexp_call_iff base exponent modulus result = ok_or_iff _ _ result
