-- ===== src/Sequencer/MessageQueue/Tests.antt =====
-- The message queue at concrete inputs.
use synddb.Prelude.{ℕ, ◌≡◌, refl, Bool, true, false, [], ◌∷◌, ◌++◌, arith}
use synddb.Sequencer.MessageQueue.{
  MessageQueue, InboundMessage, NewMessage, inbound, enforce_max_size, cleanup_expired, add_message,
  get_messages_after,
}
use synddb.Sequencer.MessageQueue.Invariant.{IsValid, add_message-IsValid}
use synddb.Sequencer.MessageQueue.Reads.{get_messages_after_pages}

abbrev deposit : NewMessage
deposit = record {
  message_id = "req-1";
  message_type = "deposit";
  payload = "{}";
  sender = "0x123";
  tx_hash = "0xabc";
  block_number = 100;
  confirmations = 12;
}

abbrev message : ℕ → ℕ → Bool → InboundMessage
message id t done = record (inbound deposit id t) { acknowledged = done }

-- Two of three places taken; the oldest is acknowledged.
abbrev queue : MessageQueue
queue = record {
  config = record { max_size = 3; retention_secs = 60 };
  messages = message 4 1000 true ∷ message 5 1010 false ∷ [];
  next_id = 6;
}

queue-IsValid : IsValid queue
queue-IsValid = record { rising = omega arith; bounded = omega arith }

add_message_runs :
    (add_message deposit 1020 1100 queue).0.messages
    ≡ message 5 1010 false ∷ message 6 1020 false ∷ []
unfolding add_message enforce_max_size cleanup_expired
add_message_runs = refl

add_message-IsValid_example : IsValid (add_message deposit 1020 1100 queue).0
add_message-IsValid_example =
    add_message-IsValid deposit 1020 1100 queue (omega arith) (omega arith) queue-IsValid

page_runs : get_messages_after queue 0 1 ≡ message 4 1000 true ∷ []
unfolding get_messages_after
page_runs = refl

get_messages_after_pages_example :
    get_messages_after queue 0 1 ++ get_messages_after queue 4 1 ≡ get_messages_after queue 0 2
unfolding get_messages_after
get_messages_after_pages_example =
    get_messages_after_pages queue 0 1 1 (message 4 1000 true) queue-IsValid refl
