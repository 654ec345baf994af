-- ===== src/Sequencer/MessageQueue/Invariant.antt =====
-- What every operation of the message queue keeps: rising ids below `next_id`, and the bound.
use synddb.Prelude.{
  ℕ, ◌+◌, ◌-◌, ◌%◌, ◌≤◌, ◌<◌, ◌≡◌, refl, List, [], ◌∷◌, ◌++◌, arith, length, u64_mod,
}
use synddb.Sequencer.MessageQueue.{
  MessageQueue, MessageQueueConfig, InboundMessage, NewMessage, inbound, with_config,
  enforce_max_size, drop_expired, cleanup_expired, add_message, acknowledge_in, acknowledge,
}

-- Every id is above `lo` and below `hi`, and they rise.
abbrev pub Rising : ℕ → ℕ → List InboundMessage → Type 0
Rising lo hi [] = Unit {0}
Rising lo hi (m ∷ ms) = (lo < m.id) × (m.id < hi) × Rising m.id hi ms

pub record IsValid (q : MessageQueue) : Type 0 where
  pub rising : Rising 0 q.next_id q.messages
  pub bounded : length q.messages ≤ q.max_size

pub Rising-weaken :
    (lo lo' hi hi' : ℕ) (ms : List InboundMessage)
    → lo' ≤ lo
    → hi ≤ hi'
    → Rising lo hi ms
    → Rising lo' hi' ms
Rising-weaken lo lo' hi hi' [] a b r = tt
Rising-weaken lo lo' hi hi' (m ∷ ms) a b r =
    (omega arith, omega arith, Rising-weaken m.id m.id hi hi' ms (omega arith) b r.2)

pub Rising-snoc :
    (lo hi : ℕ) (ms : List InboundMessage) (m : InboundMessage)
    → lo < hi
    → m.id ≡ hi
    → Rising lo hi ms
    → Rising lo (hi + 1) (ms ++ m ∷ [])
Rising-snoc lo hi [] m l e r = (omega arith, omega arith, tt)
Rising-snoc lo hi (x ∷ ms) m l e r = (r.0, omega arith, Rising-snoc x.id hi ms m r.1 e r.2)

pub enforce_max_size-Rising :
    (k lo hi : ℕ) (ms : List InboundMessage)
    → Rising lo hi ms
    → Rising lo hi (enforce_max_size k ms)
unfolding enforce_max_size
enforce_max_size-Rising k lo hi [] r = tt
enforce_max_size-Rising k lo hi (m ∷ ms) r = ground (
  arith,
  enforce_max_size-Rising k lo hi ms
      (Rising-weaken m.id lo hi hi ms (omega arith) (omega arith) r.2),
)

pub length-enforce_max_size-le :
    (k : ℕ) (ms : List InboundMessage) → length (enforce_max_size k ms) ≤ k
unfolding enforce_max_size
length-enforce_max_size-le k [] = omega arith
length-enforce_max_size-le k (m ∷ ms) = ground (arith, length-enforce_max_size-le k ms)

pub drop_expired-Rising :
    (c lo hi : ℕ) (ms : List InboundMessage) → Rising lo hi ms → Rising lo hi (drop_expired c ms)
unfolding drop_expired
drop_expired-Rising c lo hi [] r = tt
drop_expired-Rising c lo hi (m ∷ ms) r = ground (
  arith,
  drop_expired-Rising c lo hi ms (Rising-weaken m.id lo hi hi ms (omega arith) (omega arith) r.2),
)

pub length-drop_expired-le :
    (c : ℕ) (ms : List InboundMessage) → length (drop_expired c ms) ≤ length ms
unfolding drop_expired
length-drop_expired-le c [] = omega arith
length-drop_expired-le c (m ∷ ms) = ground (arith, length-drop_expired-le c ms)

pub with_config-IsValid : (c : MessageQueueConfig) → IsValid (with_config c)
unfolding with_config
with_config-IsValid c = record { rising = tt; bounded = omega arith }

-- While the id counter does not wrap, `add_message` keeps the ids rising and the queue bounded.
pub add_message-IsValid :
    (n : NewMessage) (now later : ℕ) (q : MessageQueue)
    → 0 < q.next_id
    → q.next_id + 1 < u64_mod
    → IsValid q
    → IsValid (add_message n now later q).0
unfolding add_message cleanup_expired
add_message-IsValid n now later q p h v = record {
  rising =
      let e : (q.next_id + 1) % u64_mod ≡ q.next_id + 1 = omega arith in
      rw e (
        drop_expired-Rising _ 0 _ _ (
          enforce_max_size-Rising q.max_size 0 _ _
            (Rising-snoc 0 q.next_id q.messages (inbound n q.next_id now) p refl v.rising)));
  bounded = omega (
    arith,
    length-drop_expired-le (later - q.retention_secs)
        (enforce_max_size q.max_size (q.messages ++ inbound n q.next_id now ∷ [])),
    length-enforce_max_size-le q.max_size (q.messages ++ inbound n q.next_id now ∷ []),
  );
}

acknowledge_in-Rising :
    (id now lo hi : ℕ) (ms : List InboundMessage)
    → Rising lo hi ms
    → Rising lo hi (acknowledge_in id now ms).0
unfolding acknowledge_in
acknowledge_in-Rising id now lo hi [] r = tt
acknowledge_in-Rising id now lo hi (m ∷ ms) r =
    ground (arith, acknowledge_in-Rising id now m.id hi ms r.2)

pub length-acknowledge_in :
    (id now : ℕ) (ms : List InboundMessage) → length (acknowledge_in id now ms).0 ≡ length ms
unfolding acknowledge_in
length-acknowledge_in id now [] = refl
length-acknowledge_in id now (m ∷ ms) = ground (arith, length-acknowledge_in id now ms)

pub acknowledge-IsValid :
    (id now : ℕ) (q : MessageQueue) → IsValid q → IsValid (acknowledge id now q).0
unfolding acknowledge
acknowledge-IsValid id now q v = record {
  rising = acknowledge_in-Rising id now 0 q.next_id q.messages v.rising;
  bounded = omega (arith, length-acknowledge_in id now q.messages);
}
