-- ===== src/Validator/SyncLoop/Accounts.antt =====
-- The loop accounts for every sequence it passes.
use synddb.Prelude.{
  ℕ, ◌≤◌, ◌<◌, ◌≡◌, refl, ap, ◌∙◌, Bool, true, false, Option, none, some, List, [], ◌∷◌, ◌++◌, ltb,
  leb, ◌==◌, ◌&&◌, ◌||◌, if◌then◌else◌, Result, ok, err, Bool-cases, ◌⊎◌, inl, inr, arith, All,
}
use synddb.Shared.Cbor.Crypto.{Crypto}
use synddb.Shared.Message.{Codec}
use synddb.Validator.Error.{ValidatorError}
use synddb.Validator.Sqlite.{Sqlite}
use synddb.Validator.Sync.{Validator, ValidatorConfig, Env}
use synddb.Validator.Sync.One.{Logs, sync_one-SyncsOne}
use synddb.Validator.SyncLoop.{
  LoopState, Outcome, running, stopped, failed, detect_gap, on_gap, on_none, on_result, iterate,
  run_with_callbacks,
}

abbrev pub is_in : ℕ → List ℕ → Bool
is_in n [] = false
is_in n (m ∷ ms) = m == n || is_in n ms

abbrev pub in_gaps : ℕ → List (ℕ × ℕ × ℕ) → Bool
in_gaps n [] = false
in_gaps n ((from, to, at) ∷ gaps) = (leb from n && ltb n to) || in_gaps n gaps

pub is_in-append : (n m : ℕ) (ms : List ℕ) → is_in n (ms ++ m ∷ []) ≡ (is_in n ms || m == n)
is_in-append n m [] = ground arith
is_in-append n m (k ∷ ks) = ground (arith, is_in-append n m ks)

pub in_gaps-append :
    (n from to at : ℕ) (gaps : List (ℕ × ℕ × ℕ))
    → in_gaps n (gaps ++ (from, to, at) ∷ []) ≡ (in_gaps n gaps || (leb from n && ltb n to))
in_gaps-append n from to at [] = ground arith
in_gaps-append n from to at ((f, t, a) ∷ gaps) = ground (arith, in_gaps-append n from to at gaps)

-- A sequence accounted for by a longer log of gaps, or of synced sequences.
pub longer_gaps : (i g x : Bool) → ((i || g) ≡ true) ⊎ (x ≡ true) → (i || (g || x)) ≡ true
longer_gaps true g x h = refl
longer_gaps false true x h = refl
longer_gaps false false x (inl h) = absurd cc
longer_gaps false false x (inr h) = h

pub longer_synced : (i g x : Bool) → ((i || g) ≡ true) ⊎ (x ≡ true) → ((i || x) || g) ≡ true
longer_synced true g x h = refl
longer_synced false g true h = refl
longer_synced false g false (inl h) = h
longer_synced false g false (inr h) = absurd cc

module _ {Conn : Type 0} where
  -- From a first sequence on, every sequence before the next one was reported to `on_sync` or lies
  -- in a gap that is written down.
  abbrev pub Accounts : ℕ → LoopState Conn → Type 0
  Accounts first s =
      (n : ℕ)
      → first ≤ n
      → n < s.next_sequence
      → (is_in n s.validator.synced || in_gaps n s.validator.state.gaps) ≡ true

  abbrev pub AccountsAfter : ℕ → Outcome Conn → Type 0
  AccountsAfter first (running s) = Accounts first s
  AccountsAfter first (stopped s) = Accounts first s
  AccountsAfter first (failed s e) = Accounts first s

module _ {Conn : Type 0} (sqlite : Sqlite Conn) (codec : Codec) (crypto : Crypto)
    (config : ValidatorConfig Conn) where
  same-log :
      (first : ℕ) (s : LoopState Conn) (v : Validator Conn) (count : ℕ)
      → Logs sqlite codec crypto config s.validator v
      → Accounts first s
      → Accounts first
          (record { validator = v; next_sequence = s.next_sequence; not_found_count = count })
  same-log first s v count l h n lo hi =
      ap (λ t. is_in n t || in_gaps n v.state.gaps) l.0
      ∙ ap (λ t. is_in n s.validator.synced || in_gaps n t) l.1
      ∙ h n lo hi

  on_gap-Accounts :
      (first : ℕ) (env : Env) (o : Option ℕ) (s : LoopState Conn)
      → env.write_gap ≡ ok tt
      → Accounts first s
      → AccountsAfter first (on_gap sqlite codec crypto config env s.next_sequence o s)
  on_gap-Accounts first env none s w h = h
  on_gap-Accounts first env (some a) s w h = elim (Bool-cases config.gap_skip_on_failure) [
    | inl skip ↦ rw skip (
        rw w (λ n lo hi.
          let more = in_gaps-append n s.next_sequence a env.now s.validator.state.gaps in
          let old = h n lo in
          rw more (
            longer_gaps (is_in n s.validator.synced) _ _
              (elim (Bool-cases (ltb n s.next_sequence)) [
                | inl before ↦ inl (old (ground arith))
                | inr not_before ↦ inr (ground arith)
              ]))))
    | inr keep ↦ rw keep h
  ]

  on_none-Accounts :
      (first : ℕ) (env : Env) (s : LoopState Conn)
      → env.write_gap ≡ ok tt
      → Accounts first s
      → AccountsAfter first (on_none sqlite codec crypto config env s)
  on_none-Accounts first env s w h =
      elim (Bool-cases (leb config.gap_retry_count s.not_found_count)) [
        | inl many ↦ rw many (on_gap-Accounts first env (detect_gap env s.next_sequence) s w h)
        | inr few ↦ rw few h
      ]

  on_result-Accounts :
      (first : ℕ) (env : Env) (s : LoopState Conn) (r : Validator Conn × Result Bool ValidatorError)
      → env.write_gap ≡ ok tt
      → Logs sqlite codec crypto config s.validator r.0
      → Accounts first s
      → AccountsAfter first (on_result sqlite codec crypto config env s r)
  on_result-Accounts first env s (v, ok true) w l h = λ n lo hi.
      let more = is_in-append n s.next_sequence v.synced in
      let old = same-log first s v 0 l h n lo in
      rw more (
        longer_synced (is_in n v.synced) _ _ (elim (Bool-cases (ltb n s.next_sequence)) [
          | inl before ↦ inl (old (ground arith))
          | inr not_before ↦ inr (let e : s.next_sequence ≡ n = ground arith in ground arith)
        ]))
  on_result-Accounts first env s (v, ok false) w l h =
      on_none-Accounts first env _ w (same-log first s v 0 l h)
  on_result-Accounts first env s (v, err e) w l h = same-log first s v s.not_found_count l h

  iterate-Accounts :
      (first : ℕ) (env : Env) (s : LoopState Conn)
      → env.write_gap ≡ ok tt
      → Accounts first s
      → AccountsAfter first (iterate sqlite codec crypto config env s)
  unfolding iterate
  iterate-Accounts first env s w h = either env.shutdown (stopped s) _ h (
      on_result-Accounts first env s _ w
        (sync_one-SyncsOne sqlite codec crypto config env s.next_sequence s.validator).0 h)
    where
      either :
          (b : Bool) (x y : Outcome Conn)
          → AccountsAfter first x
          → AccountsAfter first y
          → AccountsAfter first (if b then x else y)
      either true x y hx hy = hx
      either false x y hx hy = hy

  -- While the gaps can be written down, the loop never passes over a sequence silently: from where it
  -- accounts for all, every sequence before its next one was reported as synced or lies in a
  -- recorded gap, however the rounds go and whether the loop runs, is stopped or fails.
  pub run_with_callbacks-Accounts :
      (first : ℕ) (envs : List Env) (s : LoopState Conn)
      → All (λ env. env.write_gap ≡ ok tt) envs
      → Accounts first s
      → AccountsAfter first (run_with_callbacks sqlite codec crypto config envs s)
  unfolding run_with_callbacks
  run_with_callbacks-Accounts first [] s w h = h
  run_with_callbacks-Accounts first (env ∷ envs) s (w, ws) h =
      go (iterate sqlite codec crypto config env s) (iterate-Accounts first env s w h)
        (λ s' h'. run_with_callbacks-Accounts first envs s' ws h')
    where
      go :
          (o : Outcome Conn)
          → AccountsAfter first o
          → ((s' : LoopState Conn)
              → Accounts first s'
              → AccountsAfter first (run_with_callbacks sqlite codec crypto config envs s'))
          → AccountsAfter first (elim o [
            | running s' ↦ run_with_callbacks sqlite codec crypto config envs s'
            | stopped s' ↦ stopped s'
            | failed s' e ↦ failed s' e
          ])
      go (running s') a later = later s' a
      go (stopped s') a later = a
      go (failed s' e) a later = a
