-- ===== src/Bootstrap/Retry.antt =====
-- What the retry loops try.
use synddb.Prelude.{
  ℕ, zero, suc, ◌+◌, ◌≤◌, ◌<◌, ◌≡◌, refl, subst, ◌⊎◌, Bool, true, false, String, ltb, Result, ok,
  err, Result-cases, Bool-cases, inl, inr, arith,
}
use synddb.Bootstrap.{
  BootstrapError, max_retries_exceeded, is_retryable, with_retry, verify_with_retry,
}

module _ {A : Type 0} (f : ℕ → Result A BootstrapError) where
  abbrev pub Retryable : ℕ → Type 0
  Retryable n = (e : BootstrapError) × (f n ≡ err e) × (is_retryable e ≡ true)

  -- All attempts of a range fail in a way that is worth another.
  abbrev pub AllRetryable : ℕ → ℕ → Type 0
  AllRetryable lo hi = (n : ℕ) → lo ≤ n → n < hi → Retryable n

  -- The attempts from one on, `left` of them at most, and what they end in.
  abbrev pub Tried : String → ℕ → ℕ → Result A BootstrapError → Type 0
  Tried operation attempt left (ok a) =
      (n : ℕ) × (attempt ≤ n) × (n < attempt + left) × (f n ≡ ok a) × AllRetryable attempt n
  Tried operation attempt left (err e) =
      ((n : ℕ) × (attempt ≤ n)
        × (n < attempt + left)
        × (f n ≡ err e)
        × (is_retryable e ≡ false)
        × AllRetryable attempt n)
      ⊎ (AllRetryable attempt (attempt + left) × (e ≡ max_retries_exceeded operation))

  more :
      (attempt hi : ℕ) → Retryable attempt → AllRetryable (attempt + 1) hi → AllRetryable attempt hi
  more attempt hi first rest n lo h = elim (Bool-cases (ltb attempt n)) [
    | inl later ↦ rest n (ground arith) h
    | inr now ↦ let e : attempt ≡ n = ground arith in subst Retryable e first
  ]

  Tried-more :
      (operation : String) (attempt left : ℕ) (r : Result A BootstrapError)
      → Retryable attempt
      → Tried operation (attempt + 1) left r
      → Tried operation attempt (suc left) r
  Tried-more operation attempt left (ok a) first (n, lo, hi, e, all) =
      (n, omega arith, omega arith, e, more attempt n first all)
  Tried-more operation attempt left (err e) first (inl (n, lo, hi, g, no', all)) =
      inl (n, omega arith, omega arith, g, no', more attempt n first all)
  Tried-more operation attempt left (err e) first (inr (all, g)) =
      inr (λ n lo hi. more attempt (attempt + 1 + left) first all n lo (omega arith), g)

  -- The loop makes its attempts in turn. It returns the first success, or the first error that is not
  -- worth another attempt, after errors that all are; when all the attempts it may make fail in such
  -- a way, it reports that the retries are exceeded.
  pub with_retry-Tried :
      (operation : String) (attempt left : ℕ)
      → Tried operation attempt left (with_retry operation f attempt left)
  unfolding with_retry
  with_retry-Tried operation attempt zero = inr (λ n lo hi. absurd (omega arith), refl)
  with_retry-Tried operation attempt (suc left) = elim (Result-cases (f attempt)) [
    | inl (a, e) ↦
        rw (e, with_retry) (attempt, omega arith, omega arith, e, λ n lo hi. absurd (omega arith))
    | inr (x, e) ↦ elim (Bool-cases (is_retryable x)) [
      | inl again ↦
          rw (e, with_retry)
            (rw (again, with_retry)
              (Tried-more operation attempt left _ (x, e, again)
                (with_retry-Tried operation (attempt + 1) left)))
      | inr final ↦
          rw (e, with_retry)
            (rw (final, with_retry)
              (inl (attempt, omega arith, omega arith, e, final, λ n lo hi. absurd (omega arith))))
    ]
  ]

-- A verification succeeds only after an attempt that found the key valid.
pub verify_with_retry-ok :
    (f : ℕ → Result Bool BootstrapError) (attempt left : ℕ)
    → verify_with_retry f attempt left ≡ ok tt
    → (n : ℕ) × (attempt ≤ n) × (n < attempt + left) × (f n ≡ ok true)
unfolding verify_with_retry
verify_with_retry-ok f attempt zero h = cc
verify_with_retry-ok f attempt (suc left) h = go (f attempt) refl (λ again.
    let (n, lo, hi, e) = verify_with_retry-ok f (attempt + 1) left again in
    (n, omega arith, omega arith, e))
  where
    go :
        (r : Result Bool BootstrapError)
        → f attempt ≡ r
        → (verify_with_retry f (attempt + 1) left ≡ ok tt
            → (n : ℕ) × (attempt ≤ n) × (n < attempt + suc left) × (f n ≡ ok true))
        → (n : ℕ) × (attempt ≤ n) × (n < attempt + suc left) × (f n ≡ ok true)
    go (ok true) e later = (attempt, omega arith, omega arith, e)
    go (ok false) e later = later (rw (e, verify_with_retry) at h)
    go (err x) e later = absurd (let bad = rw (e, verify_with_retry) at h in cc)
