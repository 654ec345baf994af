-- ===== src/ChainMonitor/Delivery.antt =====
-- Which events reach the handler, and which transactions are processed.
use synddb.Prelude.{
  ℕ, ◌≡◌, refl, sym, ap, ◌∙◌, ◌||◌, Bool, true, false, List, [], ◌∷◌, ◌++◌, ◌==◌, ok, arith, All,
  Bool-cases, Option-cases, Result-cases, inl, inr, ◌⊎◌, ==_iff, subst, append-nil, append_assoc,
  All-append,
}
use synddb.ChainMonitor.Events.{EventStore, is_processed}
use synddb.ChainMonitor.{Log, Env, Monitor, seen, process_event, process_all}
use synddb.ChainMonitor.Handling.{Confirms, Handles, Marks-keeps, process_event-Handles}

abbrev pub Called : Log → List Log → Type 0
Called log [] = ⊥
Called log (c ∷ cs) = (c ≡ log) ⊎ Called log cs

Called-append : (log : Log) (cs ds : List Log) → Called log cs → Called log (cs ++ ds)
Called-append log [] ds h = elim h [ ]
Called-append log (c ∷ cs) ds (inl e) = inl e
Called-append log (c ∷ cs) ds (inr h) = inr (Called-append log cs ds h)

Called-last : (log : Log) (cs : List Log) → Called log (cs ++ log ∷ [])
Called-last log [] = inl refl
Called-last log (c ∷ cs) = inr (Called-last log cs)

-- What was done before stays done: calls are added behind, and no transaction is forgotten. The
-- added calls are for no transaction that was processed before.
abbrev pub Continues : Monitor → Monitor → Type 0
Continues m m' =
    (m'.asked ≡ m.asked)
    × ((more : List Log) × (m'.calls ≡ m.calls ++ more)
        × All (λ l. seen l m.event_store ≡ false) more)
    × ((h : ℕ) → is_processed h m.event_store ≡ true → is_processed h m'.event_store ≡ true)

seen_mono :
    (log : Log) (s s' : EventStore)
    → ((h : ℕ) → is_processed h s ≡ true → is_processed h s' ≡ true)
    → seen log s ≡ true
    → seen log s' ≡ true
seen_mono log s s' keep e = elim (Option-cases log.transaction_hash) [
  | inl gone ↦ let f : false ≡ true = rw gone at e in absurd cc
  | inr (h, there) ↦ rw there (keep h (rw there at e))
]

unseen_mono :
    (log : Log) (s s' : EventStore)
    → ((h : ℕ) → is_processed h s ≡ true → is_processed h s' ≡ true)
    → seen log s' ≡ false
    → seen log s ≡ false
unseen_mono log s s' keep e = elim (Bool-cases (seen log s)) [
  | inl old ↦ absurd (let f = seen_mono log s s' keep old in cc)
  | inr new' ↦ new'
]

All-unseen_mono :
    (s s' : EventStore) (logs : List Log)
    → ((h : ℕ) → is_processed h s ≡ true → is_processed h s' ≡ true)
    → All (λ l. seen l s' ≡ false) logs
    → All (λ l. seen l s ≡ false) logs
All-unseen_mono s s' [] keep a = tt
All-unseen_mono s s' (l ∷ logs) keep a =
    (unseen_mono l s s' keep a.0, All-unseen_mono s s' logs keep a.1)

pub Handles-Continues :
    (env : Env) (log : Log) (m m' : Monitor) → Handles env log m m' → Continues m m'
Handles-Continues env log m m' (asked, block, inl (old, same)) = (
  asked,
  ([], ap (λ x. x.calls) same ∙ sym (append-nil m.calls), tt),
  λ h e. ap (λ x. is_processed h x.event_store) same ∙ e,
)
Handles-Continues env log m m' (asked, block, inr (new', calls, marks)) = (
  asked,
  (log ∷ [], calls, (new', tt)),
  λ h e. Marks-keeps env log m.event_store m'.event_store h marks e,
)

pub Continues-trans : (a b c : Monitor) → Continues a b → Continues b c → Continues a c
Continues-trans a b c (asked, (more, calls, fresh), keep) (asked', (more', calls', fresh'), keep') =
    (
      asked' ∙ asked,
      (
        more ++ more',
        calls' ∙ ap (λ l. l ++ more') calls ∙ append_assoc a.calls more more',
        All-append (λ l. seen l a.event_store ≡ false) more more' fresh
            (All-unseen_mono a.event_store b.event_store more' keep fresh'),
      ),
      λ h e. keep' h (keep h e),
    )

-- Handed to the handler, or of a transaction that is processed.
abbrev pub Delivered : Monitor → Log → Type 0
Delivered m log = Called log m.calls ⊎ (seen log m.event_store ≡ true)

pub Delivered-Continues :
    (m m' : Monitor) (log : Log) → Continues m m' → Delivered m log → Delivered m' log
Delivered-Continues m m' log (asked, (more, calls, fresh), keep) (inl called) =
    inl (subst (Called log) (sym calls) (Called-append log m.calls more called))
Delivered-Continues m m' log (asked, more, keep) (inr old) =
    inr (seen_mono log m.event_store m'.event_store keep old)

pub Handles-Delivered :
    (env : Env) (log : Log) (m m' : Monitor) → Handles env log m m' → Delivered m' log
Handles-Delivered env log m m' (asked, block, inl (old, same)) =
    inr (ap (λ x. seen log x.event_store) same ∙ old)
Handles-Delivered env log m m' (asked, block, inr (new', calls, marks)) =
    inl (subst (Called log) (sym calls) (Called-last log m.calls))

-- Handled events are of processed transactions.
abbrev pub Remembered : Env → Monitor → Log → Type 0
Remembered env m log =
    ((tx : ℕ) × Confirms env log tx × (is_processed tx m.event_store ≡ true))
    ⊎ ((tx : ℕ) → Confirms env log tx → ⊥)

same_hash : (tx : ℕ) → (tx == tx) ≡ true
same_hash tx = ground arith

or_true : (b c : Bool) → c ≡ true → (b || c) ≡ true
or_true true c h = refl
or_true false c h = h

pub Handles-Remembered :
    (env : Env) (log : Log) (m m' : Monitor) → Handles env log m m' → Remembered env m' log
Handles-Remembered env log m m' (asked, block, inr (new', calls, inl (tx, confirms, more))) =
    inl (tx, confirms, more tx ∙ or_true (is_processed tx m.event_store) (tx == tx) (same_hash tx))
Handles-Remembered env log m m' (asked, block, inr (new', calls, inr (quiet, same))) = inr quiet
Handles-Remembered env log m m' (asked, block, inl (old, same)) =
    elim (Option-cases log.transaction_hash) [
      | inl gone ↦ inr (λ tx c. absurd (let f = sym gone ∙ c.0 in cc))
      | inr (t, there) ↦ elim (Result-cases (env.handle_event log)) [
        | inr (x, bad) ↦ inr (λ tx c. absurd (let f = sym bad ∙ c.1 in cc))
        | inl (false, bad) ↦ inr (λ tx c. absurd (let f = sym bad ∙ c.1 in cc))
        | inl (true, good) ↦ elim (Result-cases env.write_processed) [
          | inr (x, bad) ↦ inr (λ tx c. absurd (let f = sym bad ∙ c.2 in cc))
          | inl (u, written) ↦
              let known : is_processed t m.event_store ≡ true = rw there at old in
              inl (t, (there, good, written), ap (λ x. is_processed t x.event_store) same ∙ known)
        ]
      ]
    ]

pub Remembered-Continues :
    (env : Env) (log : Log) (m m' : Monitor)
    → Continues m m'
    → Remembered env m log
    → Remembered env m' log
Remembered-Continues env log m m' (asked, more, keep) (inl (tx, c, e)) = inl (tx, c, keep tx e)
Remembered-Continues env log m m' on (inr quiet) = inr quiet

-- An event of the transaction is among them, it was handled, and it could be written.
abbrev pub Handled : Env → List Log → ℕ → Type 0
Handled env [] tx = ⊥
Handled env (log ∷ logs) tx = Confirms env log tx ⊎ Handled env logs tx

Handles-only :
    (env : Env) (log : Log) (m m' : Monitor) (h : ℕ)
    → Handles env log m m'
    → is_processed h m'.event_store ≡ true
    → (is_processed h m.event_store ≡ true) ⊎ Confirms env log h
Handles-only env log m m' h (asked, block, inl (old, same)) e =
    inl (sym (ap (λ x. is_processed h x.event_store) same) ∙ e)
Handles-only env log m m' h (asked, block, inr (new', calls, inr (quiet, same))) e =
    inl (sym (ap (is_processed h) same) ∙ e)
Handles-only env log m m' h (asked, block, inr (new', calls, inl (tx, confirms, more))) e =
    elim (Bool-cases (is_processed h m.event_store)) [
      | inl old ↦ inl old
      | inr fresh ↦ elim (Bool-cases (tx == h)) [
        | inl here ↦ inr (subst (Confirms env log) ((==_iff tx h).0 here) confirms)
        | inr there ↦ absurd (let f = more h in cc)
      ]
    ]

-- If the database can be read, then after the events of a poll each of them was handed to the handler
-- or is of a processed transaction, and no event of a transaction that was processed before was handed
-- over again, whatever the handler answers and whether or not marking fails. A transaction is processed
-- afterwards exactly if it was before, or an event of it among these was handled and could be written:
-- where the handler declines or fails, nothing is marked.
pub process_all-Delivered :
    (env : Env) (logs : List Log) (m : Monitor)
    → env.read_processed ≡ ok tt
    → All (Delivered (process_all env logs m)) logs
      × Continues m (process_all env logs m)
      × All (Remembered env (process_all env logs m)) logs
      × ((h : ℕ)
          → (is_processed h (process_all env logs m).event_store ≡ false)
            ⊎ (is_processed h m.event_store ≡ true)
            ⊎ Handled env logs h)
unfolding process_all
process_all-Delivered env [] m r = (
  tt,
  (refl, ([], sym (append-nil m.calls), tt), λ h e. e),
  tt,
  λ h. elim (Bool-cases (is_processed h m.event_store)) [ inl t ↦ inr (inl t) | inr f ↦ inl f ],
)
process_all-Delivered env (log ∷ logs) m r =
    let first = process_event-Handles env log m r in
    let m' = (process_event env log m).0 in
    let end' = process_all env logs m' in
    let (rest, on, kept, only) = process_all-Delivered env logs m' r in
    (
      (Delivered-Continues m' end' log on (Handles-Delivered env log m m' first), rest),
      Continues-trans m m' end' (Handles-Continues env log m m' first) on,
      (Remembered-Continues env log m' end' on (Handles-Remembered env log m m' first), kept),
      λ h. elim (only h) [
        | inl f ↦ inl f
        | inr (inr later) ↦ inr (inr (inr later))
        | inr (inl was) ↦ elim (Handles-only env log m m' h first was) [
          | inl before ↦ inr (inl before)
          | inr now ↦ inr (inr (inl now))
        ]
      ],
    )
