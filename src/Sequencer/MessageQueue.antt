-- ===== src/Sequencer/MessageQueue.antt =====
-- crates/synddb-sequencer/src/messages/queue.rs: the bounded queue of inbound messages.
-- The front of the deque is the head of the list. Each reading of the system clock is an argument.
pub mod Invariant
pub mod Reads
pub mod Pending
pub mod Tests
use synddb.Prelude.{
  ℕ, ◌+◌, ◌-◌, ◌%◌, Bool, true, false, not, ◌&&◌, String, Option, none, some, List, [], ◌∷◌, ◌++◌,
  ltb, ◌==◌, str_eq, if◌then◌else◌, length, filter, find, take, get_last?, u64_mod,
}

pub record MessageQueueConfig : Type 0 where
  pub max_size : ℕ
  pub retention_secs : ℕ

abbrev pub default_config : MessageQueueConfig
default_config = record { max_size = 10_000; retention_secs = 86_400 }

pub record InboundMessage : Type 0 where
  pub id : ℕ
  pub message_id : String
  pub message_type : String
  pub payload : String
  pub sender : String
  pub tx_hash : String
  pub block_number : ℕ
  pub confirmations : ℕ
  pub timestamp : ℕ
  pub acknowledged : Bool
  pub acknowledged_at : Option ℕ

pub record MessageQueue : Type 0 where
  pub config : MessageQueueConfig
  pub open config use *
  pub messages : List InboundMessage
  pub next_id : ℕ

unfoldable pub with_config : MessageQueueConfig → MessageQueue
with_config config = record { config = config; messages = []; next_id = 1 }

unfoldable pub new : MessageQueue
unfolding with_config
new = with_config default_config

-- `while self.messages.len() > self.config.max_size { self.messages.pop_front(); }`
unfoldable pub enforce_max_size : ℕ → List InboundMessage → List InboundMessage
enforce_max_size max_size [] = []
enforce_max_size max_size (m ∷ ms) =
    if ltb max_size (length (m ∷ ms)) then enforce_max_size max_size ms else m ∷ ms

-- The loop of `cleanup_expired`.
unfoldable pub drop_expired : ℕ → List InboundMessage → List InboundMessage
drop_expired cutoff [] = []
drop_expired cutoff (m ∷ ms) =
    if m.acknowledged && ltb m.timestamp cutoff then drop_expired cutoff ms else m ∷ ms

-- `saturating_sub` is the truncated subtraction.
unfoldable pub cleanup_expired : ℕ → MessageQueue → MessageQueue
unfolding drop_expired
cleanup_expired now q = record q { messages = drop_expired (now - q.retention_secs) q.messages }

-- The arguments of `add_message`.
pub record NewMessage : Type 0 where
  pub message_id : String
  pub message_type : String
  pub payload : String
  pub sender : String
  pub tx_hash : String
  pub block_number : ℕ
  pub confirmations : ℕ

abbrev pub inbound : NewMessage → ℕ → ℕ → InboundMessage
inbound n id timestamp = record {
  id = id;
  message_id = n.message_id;
  message_type = n.message_type;
  payload = n.payload;
  sender = n.sender;
  tx_hash = n.tx_hash;
  block_number = n.block_number;
  confirmations = n.confirmations;
  timestamp = timestamp;
  acknowledged = false;
  acknowledged_at = none;
}

-- `now` is the clock at the insertion, `later` the clock that `cleanup_expired` reads.
unfoldable pub add_message : NewMessage → ℕ → ℕ → MessageQueue → MessageQueue × ℕ
add_message n now later q =
    let id = q.next_id in
    let messages = q.messages ++ inbound n id now ∷ [] in
    let bounded = record q {
      messages = enforce_max_size q.max_size messages;
      next_id = (q.next_id + 1) % u64_mod;
    } in
    (cleanup_expired later bounded, id)

unfoldable pub get_messages_after : MessageQueue → ℕ → ℕ → List InboundMessage
get_messages_after q after_id limit = take limit (filter (λ m. ltb after_id m.id) q.messages)

unfoldable pub get_pending_messages : MessageQueue → ℕ → List InboundMessage
get_pending_messages q limit = take limit (filter (λ m. not m.acknowledged) q.messages)

unfoldable pub get_pending_by_type : MessageQueue → String → ℕ → List InboundMessage
get_pending_by_type q t limit =
    take limit (filter (λ m. not m.acknowledged && str_eq m.message_type t) q.messages)

-- `iter_mut().find(|m| m.id == id)` and the change of the message found.
unfoldable pub acknowledge_in : ℕ → ℕ → List InboundMessage → List InboundMessage × Bool
acknowledge_in id now [] = ([], false)
acknowledge_in id now (m ∷ ms) =
    let (ms', found) = acknowledge_in id now ms in
    if m.id == id
    then (if not m.acknowledged
        then (record m { acknowledged = true; acknowledged_at = some now } ∷ ms, true)
        else (m ∷ ms, false))
    else (m ∷ ms', found)

unfoldable pub acknowledge : ℕ → ℕ → MessageQueue → MessageQueue × Bool
unfolding acknowledge_in
acknowledge id now q =
    let (messages, done) = acknowledge_in id now q.messages in
    (record q { messages = messages }, done)

unfoldable pub get_by_id : MessageQueue → ℕ → Option InboundMessage
get_by_id q id = find (λ m. m.id == id) q.messages

unfoldable pub latest_id : MessageQueue → ℕ
latest_id q = elim (get_last? q.messages) [ none ↦ 0 | some m ↦ m.id ]

pub record QueueStats : Type 0 where
  pub total : ℕ
  pub pending : ℕ
  pub acknowledged : ℕ
  pub max_size : ℕ

unfoldable pub stats : MessageQueue → QueueStats
stats q =
    let pending = length (filter (λ m. not m.acknowledged) q.messages) in
    record {
      total = length q.messages;
      pending = pending;
      acknowledged = length q.messages - pending;
      max_size = q.max_size;
    }
