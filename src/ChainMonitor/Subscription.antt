-- ===== src/ChainMonitor/Subscription.antt =====
-- crates/synddb-chain-monitor/src/monitor.rs: run_ws_monitor, and the choice of a mode in run.
pub mod Laws
use synddb.Prelude.{
  ℕ, Bool, true, false, Option, none, some, List, [], ◌∷◌, ltb, if◌then◌else◌, ok, err,
}
use synddb.ChainMonitor.{Log, Env, Monitor, process_event, Outcome, run_rpc_monitor, resume}
use synddb.ChainMonitor.Events.{set_last_processed_block}

-- What the loop waits for: a change of the shutdown flag, a log, an error of the subscription, which
-- is made anew, and the end of the thirty seconds.
pub data WsEvent : Type 0 where
  shutdown_changed : Bool → WsEvent
  received : Env → Log → WsEvent
  subscription_error heartbeat : WsEvent

pub record WsState : Type 0 where
  pub monitor : Monitor
  pub last_checkpoint_block : Option ℕ

-- `is_none_or(|last| block_number > last)`
abbrev pub advanced : ℕ → Option ℕ → Bool
advanced block_number none = true
advanced block_number (some last) = ltb last block_number

-- A failed write is only logged.
abbrev pub stored : Env → ℕ → Monitor → Monitor
stored env block m = elim env.write_block [
  | ok done ↦ record m { event_store = set_last_processed_block block m.event_store }
  | err e ↦ m
]

abbrev pub checkpoint : Env → Log → WsState → WsState
checkpoint env log s = elim log.block_number [
  | none ↦ s
  | some block ↦
      if advanced block s.last_checkpoint_block
      then record { monitor = stored env block s.monitor; last_checkpoint_block = some block }
      else s
]

unfoldable pub on_log : Env → Log → WsState → WsState
unfolding process_event set_last_processed_block
on_log env log s =
    let s' = checkpoint env log s in record s' { monitor = (process_event env log s'.monitor).0 }

-- True if it ended by a shutdown.
unfoldable pub run_ws_monitor : List WsEvent → WsState → WsState × Bool
unfolding on_log
run_ws_monitor [] s = (s, false)
run_ws_monitor (shutdown_changed true ∷ events) s = (s, true)
run_ws_monitor (shutdown_changed false ∷ events) s = run_ws_monitor events s
run_ws_monitor (received env log ∷ events) s = run_ws_monitor events (on_log env log s)
run_ws_monitor (subscription_error ∷ events) s = run_ws_monitor events s
run_ws_monitor (heartbeat ∷ events) s = run_ws_monitor events s

-- The mode is the one that `try_subscribe_logs` answers.
pub data Mode : Type 0 where
  ws : List WsEvent → Mode
  rpc : List Env → Mode

pub data Ended : Type 0 where
  ws_ended : WsState × Bool → Ended
  rpc_ended : Outcome → Ended

unfoldable pub run : ℕ → Mode → Monitor → Ended
unfolding run_ws_monitor run_rpc_monitor resume
run start_block (ws events) m =
    ws_ended (run_ws_monitor events (record { monitor = m; last_checkpoint_block = none }))
run start_block (rpc envs) m = rpc_ended (run_rpc_monitor envs (resume start_block m))
