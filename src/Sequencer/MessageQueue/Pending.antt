-- ===== src/Sequencer/MessageQueue/Pending.antt =====
-- What happens to pending messages: expiry, insertion, acknowledgement and the counters.
use synddb.Prelude.{
  ℕ, ◌+◌, ◌-◌, ◌≤◌, ◌<◌, ◌≡◌, refl, sym, ap, ◌∙◌, Bool, true, false, not, Option, none, some, List,
  [], ◌∷◌, ◌++◌, arith, length, ◌==◌, filter, find, take, if◌then◌else◌, filter-append,
  length-append, length-filter-le, take-all,
}
use synddb.Sequencer.MessageQueue.{
  MessageQueue, InboundMessage, NewMessage, inbound, enforce_max_size, drop_expired,
  cleanup_expired, add_message, get_pending_messages, acknowledge_in, acknowledge, get_by_id, stats,
}
use synddb.Sequencer.MessageQueue.Invariant.{Rising, IsValid}

abbrev pending : List InboundMessage → List InboundMessage
pending = filter (λ m. not m.acknowledged)

pending-drop_expired : (c : ℕ) (ms : List InboundMessage) → pending (drop_expired c ms) ≡ pending ms
unfolding drop_expired
pending-drop_expired c [] = refl
pending-drop_expired c (m ∷ ms) = ground (arith, pending-drop_expired c ms)

-- `cleanup_expired` at any time leaves the pending messages as they were.
pub pending-cleanup_expired :
    (now limit : ℕ) (q : MessageQueue)
    → get_pending_messages (cleanup_expired now q) limit ≡ get_pending_messages q limit
unfolding get_pending_messages cleanup_expired
pending-cleanup_expired now limit q = ap (take limit) (pending-drop_expired _ q.messages)

enforce_within : (k : ℕ) (ms : List InboundMessage) → length ms ≤ k → enforce_max_size k ms ≡ ms
unfolding enforce_max_size
enforce_within k [] h = refl
enforce_within k (m ∷ ms) h = ground arith

all_pending :
    (q : MessageQueue) → IsValid q → get_pending_messages q q.max_size ≡ pending q.messages
unfolding get_pending_messages
all_pending q v =
    take-all q.max_size (pending q.messages)
      (omega (arith, v.bounded, length-filter-le (λ m. not m.acknowledged) q.messages))

-- In a valid queue that is not full, adding a message loses none of the pending ones: the new one
-- is pending behind them.
pending-add_message :
    (n : NewMessage) (now later limit : ℕ) (q : MessageQueue)
    → IsValid q
    → length q.messages < q.max_size
    → get_pending_messages (add_message n now later q).0 limit
      ≡ take limit (get_pending_messages q q.max_size ++ inbound n q.next_id now ∷ [])
unfolding get_pending_messages add_message cleanup_expired
pending-add_message n now later limit q v h = ap (take limit) (
    pending-drop_expired (later - q.retention_secs)
      (enforce_max_size q.max_size (q.messages ++ inbound n q.next_id now ∷ []))
    ∙ ap pending (
        enforce_within q.max_size (q.messages ++ inbound n q.next_id now ∷ [])
          (omega (arith, length-append q.messages (inbound n q.next_id now ∷ []))))
    ∙ filter-append (λ m. not m.acknowledged) q.messages (inbound n q.next_id now ∷ [])
    ∙ ap (λ t. t ++ inbound n q.next_id now ∷ [])
        (sym (unfold get_pending_messages in all_pending q v)))

abbrev others : ℕ → List InboundMessage → List InboundMessage
others id = filter (λ m. not (m.id == id))

others_all :
    (id lo hi : ℕ) (ms : List InboundMessage)
    → id ≤ lo
    → Rising lo hi ms
    → others id (pending ms) ≡ pending ms
others_all id lo hi [] h r = refl
others_all id lo hi (m ∷ ms) h r = ground (arith, others_all id m.id hi ms)

pending-acknowledge_in :
    (id now lo hi : ℕ) (ms : List InboundMessage)
    → Rising lo hi ms
    → pending (acknowledge_in id now ms).0 ≡ others id (pending ms)
unfolding acknowledge_in
pending-acknowledge_in id now lo hi [] r = refl
pending-acknowledge_in id now lo hi (m ∷ ms) r =
    ground (arith, pending-acknowledge_in id now m.id hi ms r.2, others_all id m.id hi ms)

-- Acknowledging an id in a valid queue takes the message of that id, and no other, from the
-- pending ones.
pending-acknowledge :
    (id now limit : ℕ) (q : MessageQueue)
    → IsValid q
    → get_pending_messages (acknowledge id now q).0 limit
      ≡ take limit (filter (λ m. not (m.id == id)) (get_pending_messages q q.max_size))
unfolding get_pending_messages acknowledge
pending-acknowledge id now limit q v = ap (take limit) (
    pending-acknowledge_in id now 0 q.next_id q.messages v.rising
    ∙ ap (others id) (sym (unfold get_pending_messages in all_pending q v)))

acknowledge_in_twice :
    (id now now' : ℕ) (ms : List InboundMessage)
    → acknowledge_in id now' (acknowledge_in id now ms).0 ≡ ((acknowledge_in id now ms).0, false)
unfolding acknowledge_in
acknowledge_in_twice id now now' [] = refl
acknowledge_in_twice id now now' (m ∷ ms) = ground (arith, acknowledge_in_twice id now now' ms)

-- A second acknowledgement of an id returns false and changes nothing.
pub acknowledge_twice :
    (id now now' : ℕ) (q : MessageQueue)
    → acknowledge id now' (acknowledge id now q).0 ≡ ((acknowledge id now q).0, false)
unfolding acknowledge
acknowledge_twice id now now' q = ground (arith, acknowledge_in_twice id now now' q.messages)

abbrev acknowledged_by : Option InboundMessage → Bool
acknowledged_by none = false
acknowledged_by (some m) = not m.acknowledged

abbrev acknowledged_at : ℕ → Option InboundMessage → Option InboundMessage
acknowledged_at now none = none
acknowledged_at now (some m) =
    if m.acknowledged
    then some m
    else some (record m { acknowledged = true; acknowledged_at = some now })

acknowledge_in_lem :
    (id now : ℕ) (ms : List InboundMessage)
    → ((acknowledge_in id now ms).1 ≡ acknowledged_by (find (λ m. m.id == id) ms))
      × (find (λ m. m.id == id) (acknowledge_in id now ms).0
          ≡ acknowledged_at now (find (λ m. m.id == id) ms))
unfolding acknowledge_in
acknowledge_in_lem id now [] = (refl, refl)
acknowledge_in_lem id now (m ∷ ms) =
    (ground (arith, acknowledge_in_lem id now ms), ground (arith, acknowledge_in_lem id now ms))

-- `acknowledge` returns true exactly when the id belongs to a pending message, and then that
-- message is found acknowledged at the given time; else the message of the id is as before.
get_by_id-acknowledge :
    (id now : ℕ) (q : MessageQueue)
    → ((acknowledge id now q).1 ≡ acknowledged_by (get_by_id q id))
      × (get_by_id (acknowledge id now q).0 id ≡ acknowledged_at now (get_by_id q id))
unfolding acknowledge get_by_id
get_by_id-acknowledge id now q = acknowledge_in_lem id now q.messages

count_split :
    (ms : List InboundMessage)
    → length (pending ms) + length (filter (λ m. m.acknowledged) ms) ≡ length ms
count_split [] = omega arith
count_split (m ∷ ms) = ground (arith, count_split ms)

-- The counters are exact: `pending` is the number of messages that `get_pending_messages` can
-- return, `acknowledged` the number of acknowledged ones, and they add up to `total`.
stats_exact :
    (q : MessageQueue)
    → IsValid q
    → ((stats q).pending ≡ length (get_pending_messages q q.max_size))
      × ((stats q).acknowledged ≡ length (filter (λ m. m.acknowledged) q.messages))
      × ((stats q).pending + (stats q).acknowledged ≡ (stats q).total)
unfolding stats
stats_exact q v = (
  sym (ap length (all_pending q v)),
  omega (arith, count_split q.messages),
  omega (arith, count_split q.messages),
)
