-- ===== src/ChainMonitor/Tests.antt =====
-- The monitor at concrete rounds.
use synddb.Prelude.{
  inl, ℕ, ◌≡◌, refl, true, false, String, none, some, List, [], ◌∷◌, ok, err, arith, All, Result,
  Bool, ◌==◌, if◌then◌else◌,
}
use synddb.ChainMonitor.Events.{has_event, new}
use synddb.ChainMonitor.{
  Log, Env, Monitor, process_event, process_all, resume, run_rpc_monitor, Outcome, running,
}
use synddb.ChainMonitor.Delivery.{Delivered, process_all-Delivered}
use synddb.ChainMonitor.Blocks.{SweptAfter, run_rpc_monitor-Swept}
use synddb.ChainMonitor.Subscription.{
  WsEvent, shutdown_changed, received, heartbeat, run_ws_monitor,
}
use synddb.ChainMonitor.Subscription.Laws.{Kept, run_ws_monitor-Kept}

-- Two events of transaction 7, and one of transaction 8 that the handler fails on.
abbrev event : ℕ → ℕ → Log
event tx index = record {
  transaction_hash = some tx;
  block_number = some 5;
  log_index = some index;
}

abbrev logs : List Log
logs = event 7 0 ∷ event 7 1 ∷ event 8 2 ∷ []

abbrev handler : Log → Result Bool String
handler log = elim log.transaction_hash [
  | none ↦ ok true
  | some h ↦ if h == 8 then err "" else ok true
]

abbrev env : Env
env = record {
  get_latest_block = some 150;
  get_logs = λ start end'. ok logs;
  handle_event = handler;
  read_processed = ok tt;
  write_processed = ok tt;
  write_block = ok tt;
  shutdown = false;
}

abbrev quiet : Monitor
quiet = record { event_store = new; calls = []; asked = [] }

-- The second event of transaction 7 does not reach the handler, and the failed one is not repeated.
second_event_lost : (process_all env logs quiet).calls ≡ event 7 0 ∷ event 8 2 ∷ []
unfolding process_all process_event has_event
second_event_lost = refl

abbrev asked_of : Outcome → List (ℕ × ℕ)
asked_of (running s) = s.monitor.asked
asked_of (Outcome.stopped s) = s.monitor.asked
asked_of (Outcome.failed s e) = s.monitor.asked

three_rounds :
    asked_of (run_rpc_monitor (env ∷ env ∷ env ∷ []) (resume 10 quiet))
    ≡ (10, 110) ∷ (110, 150) ∷ []
unfolding run_rpc_monitor resume
three_rounds = refl

process_all-Delivered_example : All (Delivered (process_all env logs quiet)) logs
process_all-Delivered_example = (process_all-Delivered env logs quiet refl).0

run_rpc_monitor-Swept_example :
    SweptAfter 10 (run_rpc_monitor (env ∷ env ∷ env ∷ []) (resume 10 quiet))
unfolding resume
run_rpc_monitor-Swept_example =
    run_rpc_monitor-Swept 10 (env ∷ env ∷ env ∷ []) (resume 10 quiet)
      ((λ b lo hi. absurd (omega arith)), (λ b e. cc))

abbrev subscription : List WsEvent
subscription =
    received env (event 7 0)
    ∷ heartbeat
    ∷ received env (event 8 2)
    ∷ shutdown_changed true
    ∷ received env (event 9 0)
    ∷ []

run_ws_monitor-Kept_example :
    All
      (Kept
        (run_ws_monitor subscription (record { monitor = quiet; last_checkpoint_block = none })).0)
      ((env, event 7 0) ∷ (env, event 8 2) ∷ [])
run_ws_monitor-Kept_example =
    (run_ws_monitor-Kept subscription (record { monitor = quiet; last_checkpoint_block = none })
      (refl, (tt, (refl, (tt, (refl, tt))))) (inl refl)).0
