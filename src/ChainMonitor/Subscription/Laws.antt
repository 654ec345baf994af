-- ===== src/ChainMonitor/Subscription/Laws.antt =====
-- What the subscription loop does with the logs it receives.
use synddb.Prelude.{
  ◌⊎◌, ◌∙◌, err, ℕ, ◌≤◌, ◌≡◌, refl, sym, true, false, String, Option, none, some, List, [], ◌∷◌, ok,
  arith, All, Bool-cases, Option-cases, Result-cases, inl, inr, append-nil,
}
use synddb.ChainMonitor.{Log, Env, Monitor}
use synddb.ChainMonitor.Events.{set_last_processed_block, is_processed}
use synddb.ChainMonitor.Delivery.{
  Continues, Continues-trans, Delivered, Delivered-Continues, Handles-Continues, Handles-Delivered,
  Remembered, Handles-Remembered, Remembered-Continues,
}
use synddb.ChainMonitor.Handling.{process_event-Handles}
use synddb.ChainMonitor.Subscription.{
  WsEvent, shutdown_changed, received, subscription_error, heartbeat, WsState, advanced, stored,
  checkpoint, on_log, run_ws_monitor,
}

-- The logs that are received before a shutdown, with what is answered for each.
abbrev pub logs_of : List WsEvent → List (Env × Log)
logs_of [] = []
logs_of (shutdown_changed true ∷ events) = []
logs_of (shutdown_changed false ∷ events) = logs_of events
logs_of (received env log ∷ events) = (env, log) ∷ logs_of events
logs_of (subscription_error ∷ events) = logs_of events
logs_of (heartbeat ∷ events) = logs_of events

abbrev pub Readable : WsEvent → Type 0
Readable (shutdown_changed b) = Unit {0}
Readable (received env log) = env.read_processed ≡ ok tt
Readable subscription_error = Unit {0}
Readable heartbeat = Unit {0}

Continues-refl : (m : Monitor) → Continues m m
Continues-refl m = (refl, ([], sym (append-nil m.calls), tt), λ h e. e)

stored-Continues : (env : Env) (block : ℕ) (m : Monitor) → Continues m (stored env block m)
unfolding is_processed set_last_processed_block
stored-Continues env block m = elim (Result-cases env.write_block) [
  | inl (u, good) ↦ rw good (refl, ([], sym (append-nil m.calls), tt), λ h e. e)
  | inr (e, bad) ↦ rw bad (Continues-refl m)
]

-- At most, `none` being below every number.
abbrev pub Below : Option ℕ → Option ℕ → Type 0
Below none b = Unit {0}
Below (some x) none = ⊥
Below (some x) (some y) = x ≤ y

Below-refl : (a : Option ℕ) → Below a a
Below-refl none = tt
Below-refl (some x) = omega arith

Below-trans : (a b c : Option ℕ) → Below a b → Below b c → Below a c
Below-trans none b c h k = tt
Below-trans (some x) none c h k = elim h [ ]
Below-trans (some x) (some y) none h k = elim k [ ]
Below-trans (some x) (some y) (some z) h k = omega (arith, h, k)

advanced-Below :
    (block : ℕ) (last : Option ℕ) → advanced block last ≡ true → Below last (some block)
advanced-Below block none h = tt
advanced-Below block (some last) h = ground arith

not_advanced-Below :
    (block : ℕ) (last : Option ℕ) → advanced block last ≡ false → Below (some block) last
not_advanced-Below block none h = absurd cc
not_advanced-Below block (some last) h = ground arith

-- The checkpoint of a log: it does not fall, and covers the block of the log.
checkpoint-Covers :
    (env : Env) (log : Log) (s : WsState)
    → Continues s.monitor (checkpoint env log s).monitor
      × Below s.last_checkpoint_block (checkpoint env log s).last_checkpoint_block
      × Below log.block_number (checkpoint env log s).last_checkpoint_block
checkpoint-Covers env log s = elim (Option-cases log.block_number) [
  | inl gone ↦ rw gone (Continues-refl s.monitor, Below-refl s.last_checkpoint_block, tt)
  | inr (block, there) ↦ elim (Bool-cases (advanced block s.last_checkpoint_block)) [
    | inl new' ↦ rw there (
        rw new' (
          stored-Continues env block s.monitor,
          advanced-Below block s.last_checkpoint_block new',
          omega arith,
        ))
    | inr old ↦ rw there (
        rw old (
          Continues-refl s.monitor,
          Below-refl s.last_checkpoint_block,
          not_advanced-Below block s.last_checkpoint_block old,
        ))
  ]
]

-- What a run leaves of one log.
abbrev pub Kept : WsState → Env × Log → Type 0
Kept s (env, log) =
    Delivered s.monitor log
    × Remembered env s.monitor log
    × Below log.block_number s.last_checkpoint_block

-- The stored block is the last checkpoint, if there is one.
abbrev pub Synced : WsState → Type 0
Synced s =
    (s.last_checkpoint_block ≡ none) ⊎ (s.monitor.event_store.last_block ≡ s.last_checkpoint_block)

-- The checkpoint of a log could not be written.
abbrev pub WriteFails : Env × Log → Type 0
WriteFails (env, log) = (e : String) × (env.write_block ≡ err e)

abbrev pub Any : (Env × Log → Type 0) → List (Env × Log) → Type 0
Any P [] = ⊥
Any P (x ∷ xs) = P x ⊎ Any P xs

checkpoint-Synced :
    (env : Env) (log : Log) (s : WsState)
    → Synced s
    → WriteFails (env, log) ⊎ Synced (checkpoint env log s)
unfolding set_last_processed_block
checkpoint-Synced env log s synced = elim (Option-cases log.block_number) [
  | inl gone ↦ inr (rw gone synced)
  | inr (block, there) ↦ elim (Bool-cases (advanced block s.last_checkpoint_block)) [
    | inr old ↦ inr (rw there (rw old synced))
    | inl new' ↦ elim (Result-cases env.write_block) [
      | inr (e, bad) ↦ inl (e, bad)
      | inl (u, good) ↦ inr (rw there (rw new' (inr (rw good refl))))
    ]
  ]
]

on_log-Synced :
    (env : Env) (log : Log) (s : WsState)
    → env.read_processed ≡ ok tt
    → Synced s
    → WriteFails (env, log) ⊎ Synced (on_log env log s)
unfolding on_log
on_log-Synced env log s r synced = elim (checkpoint-Synced env log s synced) [
  | inl bad ↦ inl bad
  | inr first ↦
      let s' = checkpoint env log s in
      let handled = process_event-Handles env log s'.monitor r in
      inr (elim first [ inl gone ↦ inl gone | inr same ↦ inr (handled.1 ∙ same) ])
]

-- One log, given what the rest of the run keeps.
one_log :
    (env : Env) (log : Log) (s end' : WsState)
    → env.read_processed ≡ ok tt
    → Continues (on_log env log s).monitor end'.monitor
    → Below (on_log env log s).last_checkpoint_block end'.last_checkpoint_block
    → Kept end' (env, log)
      × Continues s.monitor end'.monitor
      × Below s.last_checkpoint_block end'.last_checkpoint_block
unfolding on_log
one_log env log s end' r on up =
    let s' = checkpoint env log s in
    let s'' = on_log env log s in
    let (first, grown, covered) = checkpoint-Covers env log s in
    let handled = process_event-Handles env log s'.monitor r in
    let step =
      Continues-trans s.monitor s'.monitor s''.monitor first
        (Handles-Continues env log s'.monitor s''.monitor handled) in
    (
      (
        Delivered-Continues s''.monitor end'.monitor log on
            (Handles-Delivered env log s'.monitor s''.monitor handled),
        Remembered-Continues env log s''.monitor end'.monitor on
            (Handles-Remembered env log s'.monitor s''.monitor handled),
        Below-trans log.block_number s'.last_checkpoint_block end'.last_checkpoint_block covered up,
      ),
      Continues-trans s.monitor s''.monitor end'.monitor step on,
      Below-trans s.last_checkpoint_block s'.last_checkpoint_block end'.last_checkpoint_block grown
          up,
    )

run_ws_monitor-Covers :
    (events : List WsEvent) (s : WsState)
    → All Readable events
    → All (Kept (run_ws_monitor events s).0) (logs_of events)
      × Continues s.monitor (run_ws_monitor events s).0.monitor
      × Below s.last_checkpoint_block (run_ws_monitor events s).0.last_checkpoint_block
unfolding run_ws_monitor
run_ws_monitor-Covers [] s r = (tt, Continues-refl s.monitor, Below-refl s.last_checkpoint_block)
run_ws_monitor-Covers (shutdown_changed true ∷ events) s r =
    (tt, Continues-refl s.monitor, Below-refl s.last_checkpoint_block)
run_ws_monitor-Covers (shutdown_changed false ∷ events) s r = run_ws_monitor-Covers events s r.1
run_ws_monitor-Covers (received env log ∷ events) s r =
    let (kept, on, up) = run_ws_monitor-Covers events (on_log env log s) r.1 in
    let (first, step, grown) =
      one_log env log s (run_ws_monitor events (on_log env log s)).0 r.0 on up in
    ((first, kept), step, grown)
run_ws_monitor-Covers (subscription_error ∷ events) s r = run_ws_monitor-Covers events s r.1
run_ws_monitor-Covers (heartbeat ∷ events) s r = run_ws_monitor-Covers events s r.1

-- The run, and the stored block.
run_ws_monitor-Synced :
    (events : List WsEvent) (s : WsState)
    → All Readable events
    → Synced s
    → Any WriteFails (logs_of events) ⊎ Synced (run_ws_monitor events s).0
unfolding run_ws_monitor
run_ws_monitor-Synced [] s r y = inr y
run_ws_monitor-Synced (shutdown_changed true ∷ events) s r y = inr y
run_ws_monitor-Synced (shutdown_changed false ∷ events) s r y = run_ws_monitor-Synced events s r.1 y
run_ws_monitor-Synced (received env log ∷ events) s r y = elim (on_log-Synced env log s r.0 y) [
  | inl bad ↦ inl (inl bad)
  | inr synced ↦ elim (run_ws_monitor-Synced events (on_log env log s) r.1 synced) [
    | inl bad ↦ inl (inr bad)
    | inr z ↦ inr z
  ]
]
run_ws_monitor-Synced (subscription_error ∷ events) s r y = run_ws_monitor-Synced events s r.1 y
run_ws_monitor-Synced (heartbeat ∷ events) s r y = run_ws_monitor-Synced events s r.1 y

-- If the database can be read, then whatever the loop waits for, each log that it received before the
-- shutdown was handed to the handler or is of a processed transaction, none was handed over for a
-- transaction that was processed before, one that was handled and could be written is of a processed
-- transaction, and the last checkpoint is at or after the block of each. Where the stored block was the
-- last checkpoint, or there was none, the block in the database is the last checkpoint, unless the
-- checkpoint of one of these logs could not be written.
pub run_ws_monitor-Kept :
    (events : List WsEvent) (s : WsState)
    → All Readable events
    → Synced s
    → All (Kept (run_ws_monitor events s).0) (logs_of events)
      × Continues s.monitor (run_ws_monitor events s).0.monitor
      × Below s.last_checkpoint_block (run_ws_monitor events s).0.last_checkpoint_block
      × (Any WriteFails (logs_of events) ⊎ Synced (run_ws_monitor events s).0)
run_ws_monitor-Kept events s r y =
    let (kept, on, up) = run_ws_monitor-Covers events s r in
    (kept, on, up, run_ws_monitor-Synced events s r y)
