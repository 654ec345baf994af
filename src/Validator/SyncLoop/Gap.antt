-- ===== src/Validator/SyncLoop/Gap.antt =====
-- What gap detection finds.
use synddb.Prelude.{
  ℕ, zero, suc, ◌+◌, ◌%◌, ◌≤◌, ◌<◌, ◌≡◌, refl, sym, ap, ◌∙◌, String, Bool, true, false, Option,
  none, some, ltb, Result, ok, err, Bool-cases, ◌⊎◌, inl, inr, arith, u64_mod,
}
use synddb.Validator.Sync.{Env}
use synddb.Validator.SyncLoop.{found_at, probe, ahead, or_else, detect_gap}

abbrev pub available : Env → ℕ → Bool
available env s = found_at (env.get s)

-- The first of the probed sequences that is available.
abbrev Probed : Env → ℕ → ℕ → ℕ → Option ℕ → Type 0
Probed env expected offset count none =
    (n : ℕ) → expected + offset ≤ n → n < expected + offset + count → available env n ≡ false
Probed env expected offset count (some a) =
    (expected + offset ≤ a)
    × (a < expected + offset + count)
    × (available env a ≡ true)
    × ((n : ℕ) → expected + offset ≤ n → n < a → available env n ≡ false)

-- A range with an unavailable first element.
none-from :
    (env : Env) (a b : ℕ)
    → available env a ≡ false
    → ((n : ℕ) → a + 1 ≤ n → n < b → available env n ≡ false)
    → (n : ℕ) → a ≤ n
    → n < b
    → available env n ≡ false
none-from env a b first rest n lo hi = elim (Bool-cases (ltb a n)) [
  | inl more ↦ rest n (ground arith) hi
  | inr not_more ↦ let e : a ≡ n = ground arith in ap (available env) (sym e) ∙ first
]

Probed-more :
    (env : Env) (expected offset count : ℕ) (r : Option ℕ)
    → available env (expected + offset) ≡ false
    → Probed env expected (offset + 1) count r
    → Probed env expected offset (suc count) r
Probed-more env expected offset count none first p = λ n lo hi.
    none-from env (expected + offset) (expected + offset + suc count) first
      (λ k lo' hi'. p k (omega arith) (omega arith)) n lo hi
Probed-more env expected offset count (some a) first (lo, hi, here, before) = (
  omega arith,
  omega arith,
  here,
  λ n lo' hi'.
      none-from env (expected + offset) a first (λ k l h. before k (omega arith) h) n lo' hi',
)

probe-Probed :
    (env : Env) (expected offset count : ℕ)
    → expected + offset + count < u64_mod
    → Probed env expected offset count (probe env expected offset count)
unfolding probe
probe-Probed env expected offset zero h = λ n lo hi. absurd (omega arith)
probe-Probed env expected offset (suc count) h =
    let e : (expected + offset) % u64_mod ≡ expected + offset = omega arith in
    elim (Bool-cases (available env (expected + offset))) [
      | inl here ↦ rw e (rw here (omega arith, omega arith, here, λ n lo hi. absurd (omega arith)))
      | inr missing ↦
          let rest = probe-Probed env expected (offset + 1) count (omega arith) in
          rw e (rw missing (Probed-more env expected offset count _ missing rest))
    ]

-- What gap detection says of the sequence that is missing.
abbrev pub Detects : Env → ℕ → Option ℕ → Type 0
Detects env expected none =
    ((n : ℕ) → expected < n → n ≤ expected + 10 → available env n ≡ false)
    × ((latest : ℕ) → env.get_latest_sequence ≡ ok (some latest) → latest ≤ expected)
Detects env expected (some a) =
    (expected < a)
    × ((n : ℕ) → expected < n → n < a → available env n ≡ false)
    × ((available env a ≡ true)
        ⊎ ((a ≡ expected + 1)
            × (latest : ℕ) × (env.get_latest_sequence ≡ ok (some latest))
            × (expected < latest)))

-- Where it reports a sequence, that one is later, none between is available, and either it is
-- available itself or it is the next one and the fetcher names a later one as its latest. Where it
-- reports none, the next ten are not available and the fetcher names no later one.
pub detect_gap-Detects :
    (env : Env) (expected : ℕ)
    → expected + 11 < u64_mod
    → Detects env expected (detect_gap env expected)
unfolding detect_gap
detect_gap-Detects env expected h =
    go (probe env expected 1 10) (probe-Probed env expected 1 10 (omega arith))
      env.get_latest_sequence refl
  where
    go :
        (p : Option ℕ)
        → Probed env expected 1 10 p
        → (l : Result (Option ℕ) String) → env.get_latest_sequence ≡ l
        → Detects env expected (or_else p (ahead l expected))
    go (some a) (lo, hi, here, before) l e =
        (omega arith, λ n lo' hi'. before n (omega arith) hi', inl here)
    go none p (ok none) e = (λ n lo hi. p n (omega arith) (omega arith), λ latest f. cc)
    go none p (err x) e = (λ n lo hi. p n (omega arith) (omega arith), λ latest f. cc)
    go none p (ok (some latest)) e = elim (Bool-cases (ltb expected latest)) [
      | inl later ↦
          let next : (expected + 1) % u64_mod ≡ expected + 1 = omega arith in
          rw later (
            rw next
              (omega arith, λ n lo hi. absurd (omega arith), inr (refl, latest, e, ground arith)))
      | inr not_later ↦ rw not_later (
        λ n lo hi. p n (omega arith) (omega arith),
        λ l f. let same : latest ≡ l = cc in ground arith,
      )
    ]
