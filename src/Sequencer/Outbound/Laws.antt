-- ===== src/Sequencer/Outbound/Laws.antt =====
-- Tracking, updating, cleaning up and polling.
use synddb.Prelude.{
  ℕ, ◌+◌, ◌-◌, ◌≤◌, ◌≡◌, refl, sym, ap, ◌∙◌, true, false, String, Option, none, some, [], ◌∷◌, ◌++◌,
  ◌==◌, filter, length, if◌then◌else◌, All, Bool-cases, inl, inr, arith,
}
use synddb.Sequencer.Outbound.{
  OutboundStatus, TrackedOutboundMessage, OutboundTracker, get_status, tracked, is_some,
  track_message, update, retained, cleanup_old_messages, OutboundStats, pending, queued, submitting,
  submitted, confirmed, failed, no_stats, count_status, count_from, stats, OutboundMonitor, LogRow,
}

get_status-snoc :
    (ms : OutboundTracker) (m : TrackedOutboundMessage) (id : ℕ)
    → get_status (ms ++ m ∷ []) id ≡ (
        if is_some (get_status ms id)
        then get_status ms id
        else (if m.id == id then some m else none))
unfolding get_status
get_status-snoc [] m id = refl
get_status-snoc (k ∷ ms) m id = ground (arith, get_status-snoc ms m id)

none-if :
    (ms : OutboundTracker) (n : ℕ) → is_some (get_status ms n) ≡ false → get_status ms n ≡ none
none-if ms n h = go (get_status ms n) h
  where
    go : (o : Option TrackedOutboundMessage) → is_some o ≡ false → o ≡ none
    go none h = refl
    go (some m) h = cc

-- Tracking a message adds it as queued if its id is new, and changes no tracked message.
pub track_message-keeps :
    (now id n : ℕ) (message_type payload : String) (ms : OutboundTracker)
    → get_status (track_message now id message_type payload ms) n ≡ (
        if is_some (get_status ms n)
        then get_status ms n
        else (if id == n then some (tracked now id message_type payload) else none))
unfolding track_message
track_message-keeps now id n message_type payload ms =
    elim (Bool-cases (is_some (get_status ms id))) [
      | inl known ↦ rw known (elim (Bool-cases (is_some (get_status ms n))) [
        | inl here ↦ rw here refl
        | inr missing ↦
            let apart : (id == n) ≡ false = elim (Bool-cases (id == n)) [
              | inl same ↦
                  let e : id ≡ n = ground arith in
                  absurd (
                    let bad : true ≡ false =
                      sym known ∙ ap (λ k. is_some (get_status ms k)) e ∙ missing in
                    cc)
              | inr other ↦ other
            ] in
            rw (missing, apart) (none-if ms n missing)
      ])
      | inr new' ↦ rw new' (get_status-snoc ms (tracked now id message_type payload) n)
    ]

abbrev pub mapped :
    (TrackedOutboundMessage → TrackedOutboundMessage)
    → Option TrackedOutboundMessage
    → Option TrackedOutboundMessage
mapped f none = none
mapped f (some m) = some (f m)

-- A status update changes the message of its id alone.
get_status-update :
    (id n : ℕ) (f : TrackedOutboundMessage → TrackedOutboundMessage) (ms : OutboundTracker)
    → ((m : TrackedOutboundMessage) → (f m).id ≡ m.id)
    → get_status (update id f ms) n
      ≡ (if id == n then mapped f (get_status ms n) else get_status ms n)
unfolding get_status update
get_status-update id n f [] h = ground arith
get_status-update id n f (m ∷ ms) h =
    let ih = get_status-update id n f ms h in
    let same = h m in
    elim (Bool-cases (m.id == id)) [
      | inl here ↦ let e : (f m).id ≡ m.id = same in rw here (ground arith)
      | inr there ↦ rw there (ground (arith, ih))
    ]

-- Cleaning up keeps what it finds for every message that is not confirmed or failed, or was updated
-- after the cutoff, and leaves only such messages.
pub cleanup_old_messages-keeps :
    (now max_age_secs : ℕ) (ms : OutboundTracker)
    → All (λ m. retained (now - max_age_secs) m ≡ true) (cleanup_old_messages now max_age_secs ms)
      × ((n : ℕ) (m : TrackedOutboundMessage)
          → get_status ms n ≡ some m
          → retained (now - max_age_secs) m ≡ true
          → get_status (cleanup_old_messages now max_age_secs ms) n ≡ some m)
unfolding cleanup_old_messages get_status
cleanup_old_messages-keeps now max_age_secs ms = (left ms, found ms)
  where
    cutoff : ℕ
    cutoff = now - max_age_secs

    left :
        (ms : OutboundTracker)
        → All
            (λ m. retained (now - max_age_secs) m ≡ true)
            (filter (retained (now - max_age_secs)) ms)
    left [] = tt
    left (k ∷ ms) = elim (Bool-cases (retained (now - max_age_secs) k)) [
      | inl kept ↦ rw kept (kept, left ms)
      | inr gone ↦ rw gone (left ms)
    ]

    found :
        (ms : OutboundTracker) (n : ℕ) (m : TrackedOutboundMessage)
        → get_status ms n ≡ some m
        → retained (now - max_age_secs) m ≡ true
        → get_status (filter (retained (now - max_age_secs)) ms) n ≡ some m
    found [] n m e r = cc
    found (k ∷ ms) n m e r = elim (Bool-cases (k.id == n)) [
      | inl here ↦
          let same : k ≡ m = ground arith in
          let kept : retained (now - max_age_secs) k ≡ true =
            ap (retained (now - max_age_secs)) same ∙ r in
          rw kept (rw here (ap some same))
      | inr there ↦
          let ih = found ms n m (rw there at e) r in
          elim (Bool-cases (retained (now - max_age_secs) k)) [
            | inl kept ↦ rw kept (rw there ih)
            | inr gone ↦ rw gone ih
          ]
    ]

pub sum_of : OutboundStats → ℕ
sum_of s =
    s.pending_count + s.queued_count + s.submitting_count + s.submitted_count + s.confirmed_count
    + s.failed_count

counted-one :
    (status : OutboundStatus) (s : OutboundStats)
    → (sum_of (count_status status (record s { total = s.total + 1 })) ≡ sum_of s + 1)
      × ((count_status status (record s { total = s.total + 1 })).total ≡ s.total + 1)
unfolding sum_of
counted-one pending s = (omega arith, refl)
counted-one queued s = (omega arith, refl)
counted-one submitting s = (omega arith, refl)
counted-one submitted s = (omega arith, refl)
counted-one confirmed s = (omega arith, refl)
counted-one failed s = (omega arith, refl)

count_from-length :
    (s : OutboundStats) (ms : OutboundTracker)
    → (sum_of (count_from s ms) ≡ sum_of s + length ms)
      × ((count_from s ms).total ≡ s.total + length ms)
unfolding count_from
count_from-length s [] = (omega arith, omega arith)
count_from-length s (m ∷ ms) =
    let one = counted-one m.status s in
    let rest = count_from-length (count_status m.status (record s { total = s.total + 1 })) ms in
    (omega (arith, one.0, rest.0), omega (arith, one.1, rest.1))

-- The total and the sum of the six counters are both the number of tracked messages.
pub stats-length :
    (ms : OutboundTracker) → ((stats ms).total ≡ length ms) × (sum_of (stats ms) ≡ length ms)
unfolding stats sum_of
stats-length ms = let c = count_from-length no_stats ms in (omega (arith, c.1), omega (arith, c.0))

-- A later monitor knows what an earlier one did.
pub record Extends (m m' : OutboundMonitor) : Type 0 where
  pub later : m.last_seen_id ≤ m'.last_seen_id
  pub kept :
      (n : ℕ) (t : TrackedOutboundMessage)
      → get_status m.tracker n ≡ some t
      → get_status m'.tracker n ≡ some t

abbrev pub Seen : OutboundMonitor → LogRow → Type 0
Seen m r = (r.id ≤ m.last_seen_id) × (is_some (get_status m.tracker r.id) ≡ true)
