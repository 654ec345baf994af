-- ===== src/ChainMonitor.antt =====
-- crates/synddb-chain-monitor/src/monitor.rs and event_store.rs: watching a contract for events. What
-- the node, the handler and the database answer in a round is in an environment.
pub mod Events
pub mod Handling
pub mod Delivery
pub mod Blocks
pub mod Subscription
pub mod Tests
use Prim.Native.Nat.{min}
use synddb.Prelude.{
  ℕ, ◌+◌, ◌-◌, ◌*◌, ◌%◌, ◌^◌, Bool, true, false, String, Option, none, some, List, [], ◌∷◌, ◌++◌,
  leb, if◌then◌else◌, Result, ok, err,
}
use synddb.ChainMonitor.Events.{EventStore, is_processed, mark_processed, set_last_processed_block}

pub record Log : Type 0 where
  pub transaction_hash : Option ℕ
  pub block_number : Option ℕ
  pub log_index : Option ℕ

pub record Env : Type 0 where
  pub get_latest_block : Option ℕ
  pub get_logs : ℕ → ℕ → Result (List Log) String
  pub handle_event : Log → Result Bool String
  -- the answers of the database
  pub read_processed : Result (Unit {0}) String
  pub write_processed : Result (Unit {0}) String
  pub write_block : Result (Unit {0}) String
  pub shutdown : Bool

-- The store, with the calls of the handler and the block ranges that were asked for.
pub record Monitor : Type 0 where
  pub event_store : EventStore
  pub calls : List Log
  pub asked : List (ℕ × ℕ)

abbrev pub seen : Log → EventStore → Bool
seen log store = elim log.transaction_hash [ none ↦ false | some h ↦ is_processed h store ]

-- An event without a transaction hash is not looked up.
abbrev pub looked_up : Env → Log → EventStore → Result Bool String
looked_up env log store = elim log.transaction_hash [
  | none ↦ ok false
  | some h ↦ elim env.read_processed [ err e ↦ err e | ok done ↦ ok (is_processed h store) ]
]

abbrev pub or_zero : Option ℕ → ℕ
or_zero none = 0
or_zero (some n) = n

abbrev pub marked : Env → Log → Monitor → Monitor × Result (Unit {0}) String
marked env log m = elim log.transaction_hash [
  | none ↦ (m, ok tt)
  | some h ↦ elim env.write_processed [
    | err e ↦ (m, err e)
    | ok done ↦ (
      record m {
        event_store = mark_processed h (or_zero log.block_number) log.log_index m.event_store;
      },
      ok tt,
    )
  ]
]

abbrev pub after_handler :
    Env → Log → Monitor → Result Bool String → Monitor × Result (Unit {0}) String
after_handler env log m (ok true) = marked env log m
after_handler env log m (ok false) = (m, ok tt)
after_handler env log m (err e) = (m, err e)

abbrev pub unless_seen :
    Env → Log → Monitor → Result Bool String → Monitor × Result (Unit {0}) String
unless_seen env log m (ok true) = (m, ok tt)
unless_seen env log m (ok false) =
    after_handler env log (record m { calls = m.calls ++ log ∷ [] }) (env.handle_event log)
unless_seen env log m (err e) = (m, err e)

unfoldable pub process_event : Env → Log → Monitor → Monitor × Result (Unit {0}) String
unfolding is_processed mark_processed
process_event env log m = unless_seen env log m (looked_up env log m.event_store)

-- An error of an event is only logged.
unfoldable pub process_all : Env → List Log → Monitor → Monitor
unfolding process_event
process_all env [] m = m
process_all env (log ∷ logs) m = process_all env logs (process_event env log m).0

abbrev pub u64_max : ℕ
u64_max = 18_446_744_073_709_551_616

-- The end of the range is at most the latest block.
abbrev pub end_of : ℕ → ℕ → ℕ → ℕ
end_of start_block window latest = min ((start_block + window) % u64_max) latest

abbrev pub fetched :
    ℕ → ℕ → Monitor → Result (List Log) String → Monitor × Result (List Log × ℕ) String
fetched start end' m (ok logs) =
    (record m { asked = m.asked ++ (start, end') ∷ [] }, ok (logs, end'))
fetched start end' m (err e) = (m, err e)

unfoldable pub poll_for_events : Env → ℕ → ℕ → Monitor → Monitor × Result (List Log × ℕ) String
poll_for_events env start_block window m = elim env.get_latest_block [
  | none ↦ (m, err "Failed to get latest block")
  | some latest ↦
      let end_block = end_of start_block window latest in
      if leb end_block start_block
      then (m, ok ([], start_block))
      else fetched start_block end_block m (env.get_logs start_block end_block)
]

-- The seconds to wait after errors in a row: 5, 10, 20, 40, 60.
unfoldable pub backoff : ℕ → ℕ
backoff consecutive_errors = min (5 * min (2 ^ (consecutive_errors - 1)) 4_294_967_295) 60

pub record RpcState : Type 0 where
  pub monitor : Monitor
  pub current_block : ℕ
  pub consecutive_errors : ℕ
  pub sleep_duration : ℕ

pub data Outcome : Type 0 where
  running : RpcState → Outcome
  stopped : RpcState → Outcome
  failed : RpcState → String → Outcome

abbrev pub checkpointed : Env → ℕ → RpcState → Outcome
checkpointed env end_block s = elim env.write_block [
  | err e ↦ failed s e
  | ok done ↦ running (record s {
    monitor = record s.monitor {
      event_store = set_last_processed_block end_block s.monitor.event_store;
    };
    consecutive_errors = 0;
    sleep_duration = 5;
  })
]

abbrev pub on_poll : Env → RpcState → Monitor × Result (List Log × ℕ) String → Outcome
on_poll env s (m, ok (logs, end_block)) =
    checkpointed env end_block
      (record s { monitor = process_all env logs m; current_block = end_block })
on_poll env s (m, err e) = running (record s {
  monitor = m;
  consecutive_errors = s.consecutive_errors + 1;
  sleep_duration = backoff (s.consecutive_errors + 1);
})

-- A round of the RPC loop, which asks for at most 100 blocks more.
unfoldable pub rpc_round : Env → RpcState → Outcome
unfolding poll_for_events process_all backoff set_last_processed_block
rpc_round env s =
    if env.shutdown
    then stopped s
    else on_poll env s (poll_for_events env s.current_block 100 s.monitor)

unfoldable pub run_rpc_monitor : List Env → RpcState → Outcome
unfolding rpc_round
run_rpc_monitor [] s = running s
run_rpc_monitor (env ∷ envs) s = elim (rpc_round env s) [
  | running s' ↦ run_rpc_monitor envs s'
  | stopped s' ↦ stopped s'
  | failed s' e ↦ failed s' e
]

-- The state before the first round: from the stored block, or the filter's.
unfoldable pub resume : ℕ → Monitor → RpcState
resume start_block_from_filter m = record {
  monitor = m;
  current_block = elim m.event_store.last_block [
    | none ↦ start_block_from_filter
    | some block ↦ block
  ];
  consecutive_errors = 0;
  sleep_duration = 0;
}
