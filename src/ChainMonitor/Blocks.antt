-- ===== src/ChainMonitor/Blocks.antt =====
-- Which blocks the polling asks for.
use Prim.Native.Nat.{min}
use native.Mathlib.Omega.{pow_step}
use synddb.Prelude.{
  ℕ, zero, suc, ◌-◌, ◌*◌, ◌^◌, ◌≤◌, ◌<◌, ◌≡◌, refl, sym, ap, ◌∙◌, ◌||◌, ◌&&◌, Bool, true, false,
  String, Option, some, List, [], ◌∷◌, ◌++◌, ltb, leb, if◌then◌else◌, Result, ok, err, arith,
  Bool-cases, Option-cases, Result-cases, inl, inr, ◌⊎◌,
}
use synddb.ChainMonitor.Events.{EventStore, set_last_processed_block, mark_processed}
use synddb.ChainMonitor.{
  Log, Env, Monitor, looked_up, marked, after_handler, unless_seen, process_event, process_all,
  end_of, poll_for_events, backoff, RpcState, Outcome, running, stopped, failed, checkpointed,
  on_poll, rpc_round, run_rpc_monitor,
}

abbrev pub in_ranges : ℕ → List (ℕ × ℕ) → Bool
in_ranges b [] = false
in_ranges b ((lo, hi) ∷ ranges) = (leb lo b && leb b hi) || in_ranges b ranges

in_ranges-append :
    (b lo hi : ℕ) (ranges : List (ℕ × ℕ))
    → in_ranges b (ranges ++ (lo, hi) ∷ []) ≡ (in_ranges b ranges || (leb lo b && leb b hi))
in_ranges-append b lo hi [] = ground arith
in_ranges-append b lo hi ((l, h) ∷ ranges) = ground (arith, in_ranges-append b lo hi ranges)

-- Processing events touches neither the ranges nor the stored block.
abbrev Same : Monitor → Monitor → Type 0
Same m m' = (m'.asked ≡ m.asked) × (m'.event_store.last_block ≡ m.event_store.last_block)

mark_processed-block :
    (h b : ℕ) (i : Option ℕ) (s : EventStore) → (mark_processed h b i s).last_block ≡ s.last_block
unfolding mark_processed
mark_processed-block h b i s = ground arith

marked-Same : (env : Env) (log : Log) (m : Monitor) → Same m (marked env log m).0
marked-Same env log m = elim (Option-cases log.transaction_hash) [
  | inl gone ↦ rw gone (refl, refl)
  | inr (h, there) ↦ elim (Result-cases env.write_processed) [
    | inl (u, good) ↦ rw (there, good) (refl, mark_processed-block h _ _ m.event_store)
    | inr (e, bad) ↦ rw (there, bad) (refl, refl)
  ]
]

after_handler-Same :
    (env : Env) (log : Log) (m : Monitor) (r : Result Bool String)
    → Same m (after_handler env log m r).0
after_handler-Same env log m (ok true) = marked-Same env log m
after_handler-Same env log m (ok false) = (refl, refl)
after_handler-Same env log m (err e) = (refl, refl)

unless_seen-Same :
    (env : Env) (log : Log) (m : Monitor) (r : Result Bool String)
    → Same m (unless_seen env log m r).0
unless_seen-Same env log m (ok true) = (refl, refl)
unless_seen-Same env log m (ok false) =
    after_handler-Same env log (record m { calls = m.calls ++ log ∷ [] }) (env.handle_event log)
unless_seen-Same env log m (err e) = (refl, refl)

process_all-Same : (env : Env) (logs : List Log) (m : Monitor) → Same m (process_all env logs m)
unfolding process_all process_event
process_all-Same env [] m = (refl, refl)
process_all-Same env (log ∷ logs) m =
    let first = unless_seen-Same env log m (looked_up env log m.event_store) in
    let rest = process_all-Same env logs (process_event env log m).0 in
    (rest.0 ∙ first.0, rest.1 ∙ first.1)

-- From a first block on, every block before the current one was asked for, and the stored block, from
-- which a restart goes on, is not past the current one.
abbrev pub Swept : ℕ → RpcState → Type 0
Swept first s =
    ((b : ℕ) → first ≤ b → b < s.current_block → in_ranges b s.monitor.asked ≡ true)
    × ((b : ℕ) → s.monitor.event_store.last_block ≡ some b → b ≤ s.current_block)

abbrev pub SweptAfter : ℕ → Outcome → Type 0
SweptAfter first (running s) = Swept first s
SweptAfter first (stopped s) = Swept first s
SweptAfter first (failed s e) = Swept first s

-- What a poll answers, and what it asked for.
abbrev Polled : ℕ → Monitor → Monitor × Result (List Log × ℕ) String → Type 0
Polled start m (m', ok (logs, end')) =
    (m'.event_store ≡ m.event_store)
    × (start ≤ end')
    × ((m'.asked ≡ m.asked ++ (start, end') ∷ []) ⊎ ((m'.asked ≡ m.asked) × (end' ≡ start)))
Polled start m (m', err e) = m' ≡ m

after_start : (a b : ℕ) → leb b a ≡ false → a ≤ b
after_start a b h = ground arith

poll_for_events-Polled :
    (env : Env) (start window : ℕ) (m : Monitor)
    → Polled start m (poll_for_events env start window m)
unfolding poll_for_events
poll_for_events-Polled env start window m = elim (Option-cases env.get_latest_block) [
  | inl gone ↦ rw gone refl
  | inr (latest, there) ↦ elim (Bool-cases (leb (end_of start window latest) start)) [
    | inl behind ↦ rw there (rw behind (refl, omega arith, inr (refl, refl)))
    | inr before ↦ rw there (
        rw before (elim (Result-cases (env.get_logs start (end_of start window latest))) [
          | inl (logs, good) ↦
              rw good (refl, after_start start (end_of start window latest) before, inl refl)
          | inr (e, bad) ↦ rw bad refl
        ]))
  ]
]

-- One more range behind the ones before.
extended :
    (first current end' : ℕ) (ranges more : List (ℕ × ℕ))
    → ((b : ℕ) → first ≤ b → b < current → in_ranges b ranges ≡ true)
    → current ≤ end'
    → (more ≡ ranges ++ (current, end') ∷ []) ⊎ ((more ≡ ranges) × (end' ≡ current))
    → (b : ℕ) → first ≤ b
    → b < end'
    → in_ranges b more ≡ true
extended first current end' ranges more h le (inl e) b lo hi =
    ap (in_ranges b) e
    ∙ in_ranges-append b current end' ranges
    ∙ elim (Bool-cases (ltb b current)) [
      | inl before ↦ ap (λ x. x || (leb current b && leb b end')) (h b lo (ground arith))
      | inr after ↦ either (in_ranges b ranges) (leb current b && leb b end') (ground arith)
    ]
  where
    either : (x y : Bool) → y ≡ true → (x || y) ≡ true
    either true y t = refl
    either false y t = t
extended first current end' ranges more h le (inr (e, z)) b lo hi =
    ap (in_ranges b) e ∙ h b lo (omega (arith, z))

checkpointed-Swept :
    (first : ℕ) (env : Env) (end' : ℕ) (s : RpcState)
    → s.current_block ≡ end'
    → Swept first s
    → SweptAfter first (checkpointed env end' s)
unfolding set_last_processed_block
checkpointed-Swept first env end' s c h = elim (Result-cases env.write_block) [
  | inr (e, bad) ↦ rw bad h
  | inl (u, good) ↦ rw good (h.0, λ b e. let f : end' ≡ b = ground arith in omega (arith, f, c))
]

on_poll-Swept :
    (first : ℕ) (env : Env) (s : RpcState) (r : Monitor × Result (List Log × ℕ) String)
    → Polled s.current_block s.monitor r
    → Swept first s
    → SweptAfter first (on_poll env s r)
on_poll-Swept first env s (m, ok (logs, end')) (store, le, asked) h =
    let same = process_all-Same env logs m in
    let asked' : ((process_all env logs m).asked ≡ s.monitor.asked ++ (s.current_block, end') ∷ [])
        ⊎ (((process_all env logs m).asked ≡ s.monitor.asked) × (end' ≡ s.current_block)) =
      elim asked [ inl e ↦ inl (same.0 ∙ e) | inr (e, z) ↦ inr (same.0 ∙ e, z) ] in
    checkpointed-Swept first env end'
      (record s { monitor = process_all env logs m; current_block = end' }) refl
      (
        extended first s.current_block end' s.monitor.asked _ h.0 le asked',
        λ b e.
            let old = h.1 b (sym (ap (λ x. x.last_block) store) ∙ sym same.1 ∙ e) in
            omega (arith, old, le),
      )
on_poll-Swept first env s (m, err e) same h = (
  (λ b lo hi. ap (λ x. in_ranges b x.asked) same ∙ h.0 b lo hi),
  (λ b f. h.1 b (sym (ap (λ x. x.event_store.last_block) same) ∙ f)),
)

rpc_round-Swept :
    (first : ℕ) (env : Env) (s : RpcState) → Swept first s → SweptAfter first (rpc_round env s)
unfolding rpc_round
rpc_round-Swept first env s h =
    either env.shutdown (stopped s) _ h
      (on_poll-Swept first env s _ (poll_for_events-Polled env s.current_block 100 s.monitor) h)
  where
    either :
        (b : Bool) (x y : Outcome)
        → SweptAfter first x
        → SweptAfter first y
        → SweptAfter first (if b then x else y)
    either true x y hx hy = hx
    either false x y hx hy = hy

-- However the rounds go, every block from the first on and before the current one was in a range that
-- the node answered, and a restart goes on from a block that is not past the current one.
pub run_rpc_monitor-Swept :
    (first : ℕ) (envs : List Env) (s : RpcState)
    → Swept first s
    → SweptAfter first (run_rpc_monitor envs s)
unfolding run_rpc_monitor
run_rpc_monitor-Swept first [] s h = h
run_rpc_monitor-Swept first (env ∷ envs) s h =
    go (rpc_round env s) (rpc_round-Swept first env s h)
      (λ s' h'. run_rpc_monitor-Swept first envs s' h')
  where
    go :
        (o : Outcome)
        → SweptAfter first o
        → ((s' : RpcState) → Swept first s' → SweptAfter first (run_rpc_monitor envs s'))
        → SweptAfter first (elim o [
          | running s' ↦ run_rpc_monitor envs s'
          | stopped s' ↦ stopped s'
          | failed s' e ↦ failed s' e
        ])
    go (running s') h' rest = rest s' h'
    go (stopped s') h' rest = h'
    go (failed s' e) h' rest = h'

pow-pos : (n : ℕ) → 1 ≤ 2 ^ n
pow-pos zero = omega arith
pow-pos (suc n) = omega (arith, pow-pos n)

small : (n : ℕ) → n < 4 → min (5 * min (2 ^ n) 4_294_967_295) 60 ≡ 5 * 2 ^ n
small zero h = refl
small (suc zero) h = refl
small (suc (suc zero)) h = refl
small (suc (suc (suc zero))) h = refl
small (suc (suc (suc (suc n)))) h = absurd (omega arith)

-- The wait after errors in a row is from 5 seconds to a minute, does not fall with one more error,
-- and doubles with each of the first four.
backoff_bounds :
    (n : ℕ)
    → (5 ≤ backoff (suc n))
      × (backoff (suc n) ≤ 60)
      × (backoff (suc n) ≤ backoff (suc (suc n)))
      × (n < 4 → backoff (suc n) ≡ 5 * 2 ^ n)
unfolding backoff
backoff_bounds n =
    let e : suc n - 1 ≡ n = omega arith in
    let f : suc (suc n) - 1 ≡ suc n = omega arith in
    let p = pow-pos n in
    rw (e, f) (omega (arith, p), omega arith, omega (arith, pow_step 2 n), λ h. small n h)
