-- ===== src/Client/Retry/Laws.antt =====
-- How the retry loop ends.
use synddb.Prelude.{
  ℕ, zero, suc, ◌+◌, ◌<◌, ◌≡◌, refl, sym, subst, ◌⊎◌, inl, inr, true, false, ltb, Result,
  Result-cases, arith,
}
use synddb.Client.Retry.{Retried, done, gave_up, retry_from, retry_with_backoff}

-- The loop does not run out of its range.
abbrev pub Ends : {E : Type 0} → Retried E → Type 0
Ends {E} r = (r ≡ done) ⊎ ((e : E) × (r ≡ gave_up e))

-- With an attempt allowed.
module _ {E : Type 0} (operation : ℕ → Result (Unit {0}) E) (max_retries : ℕ) where
  retry_from-Ends :
      (attempt left : ℕ)
      → attempt + suc left ≡ max_retries
      → Ends (retry_from operation max_retries attempt (suc left))
  unfolding retry_from
  retry_from-Ends attempt zero h = elim (Result-cases (operation attempt)) [
    | inl (t, e) ↦ rw (e, retry_from) (inl refl)
    | inr (x, e) ↦
        let last : ltb (attempt + 1) max_retries ≡ false = ground arith in
        rw (e, retry_from) (rw last (inr (x, refl)))
  ]
  retry_from-Ends attempt (suc left) h = elim (Result-cases (operation attempt)) [
    | inl (t, e) ↦ rw (e, retry_from) (inl refl)
    | inr (x, e) ↦
        let more : ltb (attempt + 1) max_retries ≡ true = ground arith in
        rw (e, retry_from) (rw more (retry_from-Ends (attempt + 1) left (omega arith)))
  ]

  pub retry_with_backoff-Ends : 0 < max_retries → Ends (retry_with_backoff operation max_retries)
  unfolding retry_with_backoff
  retry_with_backoff-Ends h =
      let (n, e) = split max_retries h in
      subst (λ k. Ends (retry_from operation max_retries 0 k)) (sym e)
        (retry_from-Ends 0 n (omega arith))
    where
      split : (m : ℕ) → 0 < m → (n : ℕ) × (m ≡ suc n)
      split zero h = absurd (omega arith)
      split (suc n) h = (n, refl)
