-- ===== src/ChainMonitor/Handling.antt =====
-- What the processing of one event does.
use synddb.Prelude.{
  ℕ, ◌≡◌, refl, sym, ap, ◌∙◌, ◌||◌, Bool, true, false, String, Option, none, some, List, [], ◌∷◌,
  ◌++◌, ◌==◌, Result, ok, err, arith, Bool-cases, Option-cases, inl, inr, ◌⊎◌, ==_iff,
}
use synddb.ChainMonitor.Events.{EventStore, ProcessedEvent, has_event, is_processed, mark_processed}
use synddb.ChainMonitor.{
  Log, Env, Monitor, seen, looked_up, or_zero, marked, after_handler, process_event,
}

has_event-append :
    (h : ℕ) (es : List ProcessedEvent) (e : ProcessedEvent)
    → has_event h (es ++ e ∷ []) ≡ (has_event h es || e.tx_hash == h)
unfolding has_event
has_event-append h [] e = ground arith
has_event-append h (x ∷ es) e = ground (arith, has_event-append h es e)

absorbed : (b c : Bool) → (c ≡ true → b ≡ true) → b ≡ (b || c)
absorbed true c h = refl
absorbed false false h = refl
absorbed false true h = h refl

-- After a transaction is marked, it and what was processed before are processed.
is_processed-mark_processed :
    (h tx block : ℕ) (index : Option ℕ) (s : EventStore)
    → is_processed h (mark_processed tx block index s) ≡ (is_processed h s || tx == h)
unfolding is_processed mark_processed
is_processed-mark_processed h tx block index s =
    elim (Bool-cases (has_event tx s.processed_events)) [
      | inl old ↦ rw old (
          absorbed (has_event h s.processed_events) (tx == h)
            λ same. ap (λ k. has_event k s.processed_events) (sym ((==_iff tx h).0 same)) ∙ old)
      | inr new' ↦ rw new' (has_event-append h s.processed_events _)
    ]

-- The handler handled the event of a transaction, and the database can be written.
abbrev pub Confirms : Env → Log → ℕ → Type 0
Confirms env log tx =
    (log.transaction_hash ≡ some tx)
    × (env.handle_event log ≡ ok true)
    × (env.write_processed ≡ ok tt)

-- The transaction of a handled event is processed as well, if it can be written; any other event
-- leaves what is processed as it is.
abbrev pub Marks : Env → Log → EventStore → EventStore → Type 0
Marks env log s s' =
    ((tx : ℕ) × Confirms env log tx × ((h : ℕ) → is_processed h s' ≡ (is_processed h s || tx == h)))
    ⊎ (((tx : ℕ) → Confirms env log tx → ⊥) × (s' ≡ s))

-- What the processing of one event does, if the database can be read.
abbrev pub Handles : Env → Log → Monitor → Monitor → Type 0
Handles env log m m' =
    (m'.asked ≡ m.asked)
    × (m'.event_store.last_block ≡ m.event_store.last_block)
    × (((seen log m.event_store ≡ true) × (m' ≡ m))
        ⊎ ((seen log m.event_store ≡ false)
            × (m'.calls ≡ m.calls ++ log ∷ [])
            × Marks env log m.event_store m'.event_store))

pub Marks-keeps :
    (env : Env) (log : Log) (s s' : EventStore) (h : ℕ)
    → Marks env log s s'
    → is_processed h s ≡ true
    → is_processed h s' ≡ true
Marks-keeps env log s s' h (inl (tx, confirms, more)) e = more h ∙ ap (λ b. b || tx == h) e
Marks-keeps env log s s' h (inr (quiet, same)) e = ap (is_processed h) same ∙ e

looked_up-seen :
    (env : Env) (log : Log) (s : EventStore)
    → env.read_processed ≡ ok tt
    → looked_up env log s ≡ ok (seen log s)
looked_up-seen env log s r = elim (Option-cases log.transaction_hash) [
  | inl gone ↦ rw gone
  | inr (h, there) ↦ rw (there, r)
]

mark_processed-last_block :
    (tx block : ℕ) (index : Option ℕ) (s : EventStore)
    → (mark_processed tx block index s).last_block ≡ s.last_block
unfolding mark_processed
mark_processed-last_block tx block index s = elim (Bool-cases (is_processed tx s)) [
  | inl old ↦ rw old refl
  | inr new' ↦ rw new' refl
]

-- After the handler, the calls and the asked ranges are as before.
abbrev After : Env → Log → Monitor → Monitor → Type 0
After env log m m' =
    (m'.asked ≡ m.asked)
    × (m'.event_store.last_block ≡ m.event_store.last_block)
    × (m'.calls ≡ m.calls)
    × Marks env log m.event_store m'.event_store

marked-After :
    (env : Env) (log : Log) (m : Monitor)
    → env.handle_event log ≡ ok true
    → After env log m (marked env log m).0
marked-After env log m yes' = go log.transaction_hash env.write_processed refl refl
  where
    go :
        (o : Option ℕ) (w : Result (Unit {0}) String)
        → log.transaction_hash ≡ o
        → env.write_processed ≡ w
        → After env log m (
            let r : Monitor × Result (Unit {0}) String = elim o [
              | none ↦ (m, ok tt)
              | some h ↦ elim w [
                | err e ↦ (m, err e)
                | ok done ↦ (
                  record m {
                    event_store =
                        mark_processed h (or_zero log.block_number) log.log_index m.event_store;
                  },
                  ok tt,
                )
              ]
            ] in
            r.0)
    go none w gone e = (refl, refl, refl, inr (λ tx c. absurd (let f = sym gone ∙ c.0 in cc), refl))
    go (some t) (err x) there bad =
        (refl, refl, refl, inr (λ tx c. absurd (let f = sym bad ∙ c.2 in cc), refl))
    go (some t) (ok u) there good = (
      refl,
      mark_processed-last_block t (or_zero log.block_number) log.log_index m.event_store,
      refl,
      inl (
        t,
        (there, yes', good),
        λ h. is_processed-mark_processed h t (or_zero log.block_number) log.log_index m.event_store,
      ),
    )

after_handler-After :
    (env : Env) (log : Log) (m : Monitor) (r : Result Bool String)
    → env.handle_event log ≡ r
    → After env log m (after_handler env log m r).0
after_handler-After env log m (ok true) e = marked-After env log m e
after_handler-After env log m (ok false) e =
    (refl, refl, refl, inr (λ tx c. absurd (let f = sym e ∙ c.1 in cc), refl))
after_handler-After env log m (err x) e =
    (refl, refl, refl, inr (λ tx c. absurd (let f = sym e ∙ c.1 in cc), refl))

pub process_event-Handles :
    (env : Env) (log : Log) (m : Monitor)
    → env.read_processed ≡ ok tt
    → Handles env log m (process_event env log m).0
unfolding process_event
process_event-Handles env log m r = elim (Bool-cases (seen log m.event_store)) [
  | inl old ↦
      let answer = looked_up-seen env log m.event_store r ∙ ap (λ b. ok b) old in
      rw (answer, process_event) (refl, refl, inl (old, refl))
  | inr new' ↦
      let answer = looked_up-seen env log m.event_store r ∙ ap (λ b. ok b) new' in
      rw (answer, process_event)
        (let k =
            after_handler-After env log (record m { calls = m.calls ++ log ∷ [] })
              (env.handle_event log) refl in
          (k.0, k.1, inr (new', k.2, k.3)))
]
