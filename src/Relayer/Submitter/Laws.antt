-- ===== src/Relayer/Submitter/Laws.antt =====
-- Waiting for a confirmation ends, and with what.
use synddb.Prelude.{
  ℕ, zero, suc, ◌+◌, ◌<◌, ◌≤◌, ◌≡◌, refl, sym, ap, subst, ◌∙◌, ◌==◌, ==_iff, Option-cases,
  Result-cases, true, false, String, Option, none, some, ltb, Result, ok, err, arith, Bool-cases,
  inl, inr, ◌⊎◌,
}
use synddb.Shared.Bytes.{Bytes}
use synddb.Relayer.Submitter.{Chain, on_receipt, wait_from, wait_for_confirmation}

-- At least a second passes between polls.
abbrev pub TimePasses : Chain → Type 0
TimePasses chain = (poll : ℕ) → poll ≤ chain.elapsed poll

module _ (chain : Chain) (timeout : ℕ) (tx_hash : Bytes) where
  -- A poll that tells nothing.
  abbrev pub Pending : ℕ → Type 0
  Pending poll =
      (chain.receipt tx_hash poll ≡ ok none) ⊎ ((e : String) × (chain.receipt tx_hash poll ≡ err e))

  -- The polls before are in time and tell nothing, and this one decides.
  abbrev pub DecidedAt : Result (Unit {0}) String → ℕ → Type 0
  DecidedAt result poll =
      ((timeout < chain.elapsed poll) × (result ≡ err "Timeout waiting for tx confirmation after "))
      ⊎ ((chain.elapsed poll ≤ timeout)
          × (((chain.receipt tx_hash poll ≡ ok (some true)) × (result ≡ ok tt))
              ⊎ ((chain.receipt tx_hash poll ≡ ok (some false))
                  × (result ≡ err "Transaction reverted: "))))

  abbrev pub Waits : ℕ → ℕ → Type 0
  Waits from until =
      (poll : ℕ) → from ≤ poll → poll < until → (chain.elapsed poll ≤ timeout) × Pending poll

  late_Waits : (poll : ℕ) → Waits poll poll
  late_Waits poll p lo hi = absurd (omega arith)

  abbrev Ends : ℕ → Option (Result (Unit {0}) String) → Type 0
  Ends poll answer =
      (result : Result (Unit {0}) String) × (answer ≡ some result)
      × (until : ℕ) × (poll ≤ until)
      × Waits poll until
      × DecidedAt result until

  later :
      (poll : ℕ) (answer : Option (Result (Unit {0}) String))
      → chain.elapsed poll ≤ timeout
      → Pending poll
      → Ends (poll + 1) answer
      → Ends poll answer
  later poll answer early quiet (result, e, until, le, waits, decided) =
      (result, e, until, omega (arith, le), longer, decided)
    where
      longer : Waits poll until
      longer p lo hi = elim (Bool-cases (p == poll)) [
        | inl same ↦
            subst (λ k. (chain.elapsed k ≤ timeout) × Pending k) (sym ((==_iff p poll).0 same))
              (early, quiet)
        | inr other ↦ waits p (ground arith) hi
      ]

  on_receipt-Ends :
      (poll : ℕ) (rest : Option (Result (Unit {0}) String))
      → chain.elapsed poll ≤ timeout
      → Ends (poll + 1) rest
      → Ends poll (on_receipt (chain.receipt tx_hash poll) rest)
  on_receipt-Ends poll rest early go = elim (Result-cases (chain.receipt tx_hash poll)) [
    | inr (e, bad) ↦ rw bad (later poll rest early (inr (e, bad)) go)
    | inl (o, good) ↦ elim (Option-cases o) [
      | inl gone ↦
          let quiet : chain.receipt tx_hash poll ≡ ok none = good ∙ ap (λ x. ok x) gone in
          rw quiet (later poll rest early (inl quiet) go)
      | inr (b, there) ↦ elim (Bool-cases b) [
        | inl yes' ↦
            let e : chain.receipt tx_hash poll ≡ ok (some true) =
              good ∙ ap (λ x. ok x) (there ∙ ap (λ x. some x) yes') in
            rw e (ok tt, refl, poll, omega arith, late_Waits poll, inr (early, inl (e, refl)))
        | inr no' ↦
            let e : chain.receipt tx_hash poll ≡ ok (some false) =
              good ∙ ap (λ x. ok x) (there ∙ ap (λ x. some x) no') in
            rw e (_, refl, poll, omega arith, late_Waits poll, inr (early, inr (e, refl)))
      ]
    ]
  ]

  wait_from-Ends :
      (fuel poll : ℕ)
      → TimePasses chain
      → timeout + 1 < fuel + poll
      → poll ≤ timeout + 1
      → Ends poll (wait_from chain timeout tx_hash fuel poll)
  unfolding wait_from
  wait_from-Ends zero poll time enough low = absurd (omega arith)
  wait_from-Ends (suc fuel) poll time enough low =
      elim (Bool-cases (ltb timeout (chain.elapsed poll))) [
        | inl late ↦
            rw (late, wait_from)
              (_, refl, poll, omega arith, late_Waits poll, inl (ground arith, refl))
        | inr early ↦
            let le : chain.elapsed poll ≤ timeout = ground arith in
            let t = time poll in
            rw (early, wait_from)
              (on_receipt-Ends poll (wait_from chain timeout tx_hash fuel (poll + 1)) le (
                wait_from-Ends fuel (poll + 1) time (omega (arith, enough)) (omega (arith, t, le))))
      ]

  -- If at least a second passes between two polls, the wait ends. Up to the poll that ends it every
  -- poll was in time and told nothing, and that poll either came after the timeout, or was in time and
  -- had a receipt: the wait succeeds exactly if the receipt says so.
  pub wait_for_confirmation-Ends :
      TimePasses chain
      → (result : Result (Unit {0}) String) × (wait_for_confirmation chain timeout tx_hash
          ≡ some result)
        × (until : ℕ) × (0 ≤ until)
        × Waits 0 until
        × DecidedAt result until
  wait_for_confirmation-Ends time = wait_from-Ends (timeout + 2) 0 time (omega arith) (omega arith)
