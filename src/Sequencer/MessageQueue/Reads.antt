-- ===== src/Sequencer/MessageQueue/Reads.antt =====
-- What clients read from the message queue: pages after an id, and messages by id.
use synddb.Prelude.{
  ℕ, zero, suc, ◌+◌, ◌-◌, ◌≤◌, ◌<◌, ◌≡◌, refl, sym, ap, ◌∙◌, Bool, true, false, some, List, [], ◌∷◌,
  ◌++◌, arith, ltb, ◌==◌, filter, find, take, get_last?, if◌then◌else◌, get_last?-append, inl, inr,
  Bool-cases,
}
use synddb.Sequencer.MessageQueue.{
  MessageQueue, InboundMessage, NewMessage, inbound, enforce_max_size, drop_expired,
  cleanup_expired, add_message, get_messages_after, get_by_id, latest_id,
}
use synddb.Sequencer.MessageQueue.Invariant.{Rising, IsValid}

abbrev after : ℕ → List InboundMessage → List InboundMessage
after a = filter (λ m. ltb a m.id)

take-nil : (n : ℕ) → take {A = InboundMessage} n [] ≡ []
take-nil zero = refl
take-nil (suc n) = refl

after_all : (a lo hi : ℕ) (ms : List InboundMessage) → a ≤ lo → Rising lo hi ms → after a ms ≡ ms
after_all a lo hi [] h r = refl
after_all a lo hi (m ∷ ms) h r = ground (arith, after_all a m.id hi ms)

-- The last id of a page is above all that stands before the page.
last-lt :
    (k lo hi : ℕ) (ms : List InboundMessage) (m : InboundMessage)
    → Rising lo hi ms
    → get_last? (take k ms) ≡ some m
    → lo < m.id
last-lt zero lo hi ms m r e = cc
last-lt (suc k) lo hi [] m r e = cc
last-lt (suc zero) lo hi (x ∷ ms) m r e = ground arith
last-lt (suc (suc k)) lo hi (x ∷ []) m r e = ground arith
last-lt (suc (suc k)) lo hi (x ∷ y ∷ ms) m r e =
    omega (arith, last-lt (suc k) x.id hi (y ∷ ms) m r.2 e)

rest_of_page :
    (k j lo hi : ℕ) (ms : List InboundMessage) (m : InboundMessage)
    → Rising lo hi ms
    → get_last? (take k ms) ≡ some m
    → take k ms ++ take j (after m.id ms) ≡ take (k + j) ms
rest_of_page zero j lo hi ms m r e = cc
rest_of_page (suc k) j lo hi [] m r e = cc
rest_of_page (suc zero) j lo hi (x ∷ ms) m r e =
    let n : 1 + j ≡ suc j = omega arith in rw n (ground (arith, after_all m.id x.id hi ms))
rest_of_page (suc (suc k)) j lo hi (x ∷ []) m r e =
    let n : suc (suc k) + j ≡ suc (suc (k + j)) = omega arith in rw n (ground (arith, take-nil j))
rest_of_page (suc (suc k)) j lo hi (x ∷ y ∷ ms) m r e =
    let n : suc (suc k) + j ≡ suc (suc (k + j)) = omega arith in
    let n' : suc k + j ≡ suc (k + j) = omega arith in
    let ih = rest_of_page (suc k) j x.id hi (y ∷ ms) m r.2 e in
    let above : x.id < m.id = last-lt (suc k) x.id hi (y ∷ ms) m r.2 e in
    rw n (ap (◌∷◌ x) (skip (ltb m.id x.id) (ground arith) (ih ∙ ap (λ t. take t (y ∷ ms)) n')))
  where
    skip :
        (b : Bool)
        → b ≡ false
        → take (suc k) (y ∷ ms) ++ take j (after m.id (y ∷ ms)) ≡ take (suc (k + j)) (y ∷ ms)
        → take (suc k) (y ∷ ms)
            ++ take j (if b then x ∷ after m.id (y ∷ ms) else after m.id (y ∷ ms))
          ≡ take (suc (k + j)) (y ∷ ms)
    skip true f g = cc
    skip false f g = g

page :
    (a k j lo hi : ℕ) (ms : List InboundMessage) (m : InboundMessage)
    → Rising lo hi ms
    → get_last? (take k (after a ms)) ≡ some m
    → (a < m.id) × (take k (after a ms) ++ take j (after m.id ms) ≡ take (k + j) (after a ms))
page a zero j lo hi [] m r e = cc
page a (suc k) j lo hi [] m r e = cc
page a k j lo hi (x ∷ ms) m r e = elim (Bool-cases (ltb a x.id)) [
  | inl above ↦
      let r' : Rising a hi (x ∷ ms) = (ground arith, r.1, r.2) in
      let whole : after a (x ∷ ms) ≡ x ∷ ms = after_all a a hi (x ∷ ms) (omega arith) r' in
      let e' : get_last? (take k (x ∷ ms)) ≡ some m =
        ap (λ t. get_last? (take k t)) (sym whole) ∙ e in
      (
        last-lt k a hi (x ∷ ms) m r' e',
        ap (λ t. take k t ++ take j (after m.id (x ∷ ms))) whole
            ∙ rest_of_page k j a hi (x ∷ ms) m r' e'
            ∙ ap (take (k + j)) (sym whole),
      )
  | inr below ↦
      let hidden : after a (x ∷ ms) ≡ after a ms = rw below refl in
      let ih = page a k j x.id hi ms m r.2 (ap (λ t. get_last? (take k t)) (sym hidden) ∙ e) in
      let low : ltb m.id x.id ≡ false = ground (arith, ih.0) in
      let hidden' : after m.id (x ∷ ms) ≡ after m.id ms = rw low refl in
      (
        ih.0,
        ap (λ t. take k t ++ take j (after m.id (x ∷ ms))) hidden
            ∙ ap (λ t. take k (after a ms) ++ take j t) hidden'
            ∙ ih.1
            ∙ ap (take (k + j)) (sym hidden),
      )
]

-- In a valid queue, a page followed by the page after its last id is one longer page: paging by
-- the last id seen neither skips nor repeats a message.
pub get_messages_after_pages :
    (q : MessageQueue) (a k j : ℕ) (m : InboundMessage)
    → IsValid q
    → get_last? (get_messages_after q a k) ≡ some m
    → get_messages_after q a k ++ get_messages_after q m.id j ≡ get_messages_after q a (k + j)
unfolding get_messages_after
get_messages_after_pages q a k j m v e = (page a k j 0 q.next_id q.messages m v.rising e).1

find_snoc :
    (lo hi : ℕ) (ms : List InboundMessage) (m : InboundMessage)
    → Rising lo hi ms
    → m.id ≡ hi
    → find (λ x. x.id == hi) (ms ++ m ∷ []) ≡ some m
find_snoc lo hi [] m r e = ground arith
find_snoc lo hi (x ∷ ms) m r e = ground (arith, find_snoc x.id hi ms m r.2)

find-enforce_max_size :
    (k lo hi : ℕ) (ms : List InboundMessage) (m : InboundMessage)
    → 0 < k
    → Rising lo hi ms
    → m.id ≡ hi
    → find (λ x. x.id == hi) (enforce_max_size k (ms ++ m ∷ [])) ≡ some m
unfolding enforce_max_size
find-enforce_max_size k lo hi [] m p r e = ground arith
find-enforce_max_size k lo hi (x ∷ ms) m p r e =
    ground (arith, find-enforce_max_size k x.id hi ms m p r.2, find_snoc x.id hi ms m r.2)

-- The expiry loop keeps a pending message wherever it stands.
find-drop_expired :
    (c id : ℕ) (ms : List InboundMessage) (m : InboundMessage)
    → find (λ x. x.id == id) ms ≡ some m
    → m.acknowledged ≡ false
    → find (λ x. x.id == id) (drop_expired c ms) ≡ some m
unfolding drop_expired
find-drop_expired c id [] m e p = cc
find-drop_expired c id (x ∷ ms) m e p = ground (arith, find-drop_expired c id ms m)

-- A message just added to a valid queue of positive size is found under the id returned, as given
-- and unacknowledged, whatever was evicted or had expired.
get_by_id-add_message :
    (n : NewMessage) (now later : ℕ) (q : MessageQueue)
    → 0 < q.max_size
    → IsValid q
    → get_by_id (add_message n now later q).0 (add_message n now later q).1
      ≡ some (inbound n q.next_id now)
unfolding get_by_id add_message cleanup_expired
get_by_id-add_message n now later q p v =
    find-drop_expired (later - q.retention_secs) q.next_id _ _
      (find-enforce_max_size q.max_size 0 q.next_id q.messages (inbound n q.next_id now) p v.rising
        refl)
      refl

last_of_enforce :
    (k : ℕ) (ms : List InboundMessage) (m : InboundMessage)
    → 0 < k
    → get_last? (enforce_max_size k (ms ++ m ∷ [])) ≡ some m
unfolding enforce_max_size
last_of_enforce k [] m p = ground arith
last_of_enforce k (x ∷ ms) m p = ground (arith, last_of_enforce k ms m, get_last?-append (x ∷ ms) m)

last_of_drop_expired :
    (c : ℕ) (ms : List InboundMessage) (m : InboundMessage)
    → get_last? ms ≡ some m
    → m.acknowledged ≡ false
    → get_last? (drop_expired c ms) ≡ some m
unfolding drop_expired
last_of_drop_expired c [] m e p = cc
last_of_drop_expired c (x ∷ []) m e p = ground arith
last_of_drop_expired c (x ∷ y ∷ ms) m e p = ground (arith, last_of_drop_expired c (y ∷ ms) m)

-- `latest_id` is then the id returned.
pub latest_id-add_message :
    (n : NewMessage) (now later : ℕ) (q : MessageQueue)
    → 0 < q.max_size
    → latest_id (add_message n now later q).0 ≡ (add_message n now later q).1
unfolding latest_id add_message cleanup_expired
latest_id-add_message n now later q p =
    let messages = q.messages ++ inbound n q.next_id now ∷ [] in
    let last =
      last_of_drop_expired (later - q.retention_secs) (enforce_max_size q.max_size messages)
        (inbound n q.next_id now)
        (last_of_enforce q.max_size q.messages (inbound n q.next_id now) p) refl in
    rw (last, latest_id)
