-- ===== src/Sequencer/Batcher/Delivery.antt =====
-- While the signer signs and the transport accepts, the loop delivers every message in order.
use synddb.Prelude.{
  ◌≡◌, refl, sym, ap, ◌∙◌, subst, Bool, true, false, List, [], ◌∷◌, ◌++◌, ◌-◌, leb, Result,
  Bool-cases, inl, inr, append-nil, append_assoc, All, All-append, if◌then◌else◌,
}
use synddb.Shared.Bytes.{Bytes}
use synddb.Shared.Cbor.Error.{CborError}
use synddb.Shared.Cbor.Crypto.{Crypto}
use synddb.Shared.Cbor.Cose.{Coset}
use synddb.Sequencer.Batcher.{
  World, Env, Event, add_message, flush, get_stats, shutdown, tick, PendingMessage, is_empty,
  contents, flush_batch, pushed, should_flush, handle_add_message, step, run,
}
use synddb.Sequencer.Batcher.Flush.{stored, held, is_empty→nil}
use synddb.Sequencer.Batcher.Accepting.{Accepts, Parses, Signs, flush-held}

-- The messages that the loop takes up before it shuts down, and whether it shuts down.
abbrev pub received_from : Event → List Bytes
received_from (add_message m) = m ∷ []
received_from flush = []
received_from get_stats = []
received_from shutdown = []
received_from tick = []

abbrev pub is_shutdown : Event → Bool
is_shutdown shutdown = true
is_shutdown _ = false

abbrev pub received : List (Env × Event) → List Bytes
received [] = []
received ((env, event) ∷ events) =
    let rest = received events in if is_shutdown event then [] else received_from event ++ rest

abbrev pub shuts_down : List (Env × Event) → Bool
shuts_down [] = false
shuts_down ((env, event) ∷ events) =
    let rest = shuts_down events in if is_shutdown event then true else rest

module _ (crypto : Crypto) (coset : Coset) (pubkey : Bytes)
    (sign_raw : Bytes → Result Bytes CborError) where
  abbrev pub Good : Env × Event → Type 0
  Good (env, event) = Accepts env × All (Parses crypto coset pubkey sign_raw) (received_from event)

  -- What a round leaves: everything held, and messages pending that have a sequence.
  record Delivers (w w' : World) (new : List Bytes) : Type 0 where
    kept : held w' ≡ held w ++ new
    parse : All (Parses crypto coset pubkey sign_raw) (contents w'.batcher.pending)

  contents-snoc :
      (ms : List PendingMessage) (x : PendingMessage)
      → contents (ms ++ x ∷ []) ≡ contents ms ++ x.message ∷ []
  contents-snoc [] x = refl
  contents-snoc (m ∷ ms) x = ap (◌∷◌ m.message) (contents-snoc ms x)

  flush-Delivers :
      (env : Env) (w : World)
      → (Signs crypto coset pubkey sign_raw)
      → Accepts env
      → All (Parses crypto coset pubkey sign_raw) (contents w.batcher.pending)
      → Delivers w (flush_batch crypto coset pubkey sign_raw env w).0 []
  flush-Delivers env w signs accepts h =
      let d = flush-held crypto coset pubkey sign_raw env w signs accepts h in
      record {
        kept = d.0 ∙ sym (append-nil (held w));
        parse = subst (λ t. All (Parses crypto coset pubkey sign_raw) (contents t)) (sym d.1) tt;
      }

  idle-Delivers :
      (w : World)
      → All (Parses crypto coset pubkey sign_raw) (contents w.batcher.pending)
      → Delivers w w []
  idle-Delivers w h = record { kept = sym (append-nil (held w)); parse = h }

  if-Delivers :
      (b : Bool) (w x y : World) (new : List Bytes)
      → Delivers w x new
      → Delivers w y new
      → Delivers w (if b then x else y) new
  if-Delivers true w x y new dx dy = dx
  if-Delivers false w x y new dx dy = dy

  push-Delivers :
      (m : Bytes) (w : World)
      → (Parses crypto coset pubkey sign_raw) m
      → All (Parses crypto coset pubkey sign_raw) (contents w.batcher.pending)
      → Delivers w (record w { batcher = pushed crypto coset pubkey sign_raw m w.batcher }) (m ∷ [])
  push-Delivers m w p h = record {
    kept =
        ap (◌++◌ (stored w.storage)) (contents-snoc w.batcher.pending _)
        ∙ sym (append_assoc (stored w.storage) (contents w.batcher.pending) (m ∷ []));
    parse =
        subst (All (Parses crypto coset pubkey sign_raw)) (sym (contents-snoc w.batcher.pending _))
          (All-append (Parses crypto coset pubkey sign_raw) (contents w.batcher.pending) (m ∷ []) h
            (p, tt));
  }

  Delivers-trans :
      (w x y : World) (new : List Bytes) → Delivers w x new → Delivers x y [] → Delivers w y new
  Delivers-trans w x y new d e = record {
    kept = e.kept ∙ append-nil (held x) ∙ d.kept;
    parse = e.parse;
  }

  add-Delivers :
      (env : Env) (m : Bytes) (w : World)
      → (Signs crypto coset pubkey sign_raw)
      → Accepts env
      → (Parses crypto coset pubkey sign_raw) m
      → All (Parses crypto coset pubkey sign_raw) (contents w.batcher.pending)
      → Delivers w (handle_add_message crypto coset pubkey sign_raw env m w).0 (m ∷ [])
  unfolding handle_add_message
  add-Delivers env m w signs accepts p h =
      let w' = record w { batcher = pushed crypto coset pubkey sign_raw m w.batcher } in
      let d = push-Delivers m w p h in
      let f = flush-Delivers env w' signs accepts d.parse in
      elim (Bool-cases (should_flush crypto coset pubkey sign_raw w'.batcher)) [
        | inl e ↦ rw (e, handle_add_message) (Delivers-trans w w' _ (m ∷ []) d f)
        | inr e ↦ rw (e, handle_add_message) d
      ]

  step-Delivers :
      (env : Env) (event : Event) (w : World)
      → (Signs crypto coset pubkey sign_raw)
      → Good (env, event)
      → All (Parses crypto coset pubkey sign_raw) (contents w.batcher.pending)
      → Delivers w (step crypto coset pubkey sign_raw env event w).0 (received_from event)
  unfolding step
  step-Delivers env (add_message m) w signs g h = add-Delivers env m w signs g.0 g.1.0 h
  step-Delivers env flush w signs g h = flush-Delivers env w signs g.0 h
  step-Delivers env get_stats w signs g h = record { kept = sym (append-nil (held w)); parse = h }
  step-Delivers env shutdown w signs g h = elim (Bool-cases (is_empty w.batcher.pending)) [
    | inl e ↦ rw (e, step) (idle-Delivers w h)
    | inr e ↦ rw (e, step) (flush-Delivers env w signs g.0 h)
  ]
  step-Delivers env tick w signs g h = elim (Bool-cases (is_empty w.batcher.pending)) [
    | inl e ↦ rw (e, step) (idle-Delivers w h)
    | inr e ↦ elim (Bool-cases (leb w.batcher.flush_interval (env.now - w.batcher.last_flush))) [
      | inl f ↦ rw (e, step) (rw (f, step) (flush-Delivers env w signs g.0 h))
      | inr f ↦ rw (e, step) (rw (f, step) (idle-Delivers w h))
    ]
  ]

  shutdown-pending :
      (env : Env) (w : World)
      → (Signs crypto coset pubkey sign_raw)
      → Accepts env
      → All (Parses crypto coset pubkey sign_raw) (contents w.batcher.pending)
      → (step crypto coset pubkey sign_raw env shutdown w).0.batcher.pending ≡ []
  unfolding step
  shutdown-pending env w signs a h = elim (Bool-cases (is_empty w.batcher.pending)) [
    | inl e ↦ rw (e, step) (is_empty→nil w.batcher.pending e)
    | inr e ↦ rw (e, step) (flush-held crypto coset pubkey sign_raw env w signs a h).1
  ]

  shutdown-stored :
      (env : Env) (events : List (Env × Event)) (w : World)
      → (Signs crypto coset pubkey sign_raw)
      → Accepts env
      → All (Parses crypto coset pubkey sign_raw) (contents w.batcher.pending)
      → stored (run crypto coset pubkey sign_raw ((env, shutdown) ∷ events) w).storage
        ≡ held w ++ []
  unfolding run
  shutdown-stored env events w signs a h =
      let w' = (step crypto coset pubkey sign_raw env shutdown w).0 in
      sym (append-nil (stored w'.storage))
      ∙ ap (λ ms. stored w'.storage ++ contents ms) (sym (shutdown-pending env w signs a h))
      ∙ (step-Delivers env shutdown w signs (a, tt) h).kept

  run_more :
      (env : Env) (event : Event) (events : List (Env × Event)) (w : World)
      → is_shutdown event ≡ false
      → run crypto coset pubkey sign_raw ((env, event) ∷ events) w
        ≡ run crypto coset pubkey sign_raw events (step crypto coset pubkey sign_raw env event w).0
  unfolding run
  run_more env (add_message m) events w e = refl
  run_more env flush events w e = refl
  run_more env get_stats events w e = refl
  run_more env shutdown events w e = cc
  run_more env tick events w e = refl

  -- If the signer signs, the transport accepts and every message taken up has a sequence, then after
  -- a shutdown the storage holds what was stored and pending at the start and every message taken
  -- up before the shutdown, in order and once each.
  pub run-stored :
      (events : List (Env × Event)) (w : World)
      → (Signs crypto coset pubkey sign_raw)
      → All Good events
      → All (Parses crypto coset pubkey sign_raw) (contents w.batcher.pending)
      → shuts_down events ≡ true
      → stored (run crypto coset pubkey sign_raw events w).storage ≡ held w ++ received events
  run-stored [] w signs g h e = cc
  run-stored ((env, event) ∷ events) w signs g h e = elim (Bool-cases (is_shutdown event)) [
    | inl last ↦ ended event last
    | inr more ↦
        let d = step-Delivers env event w signs g.0 h in
        let ih = run-stored events _ signs g.1 d.parse (rw more at e) in
        rw (run_more env event events w more, more)
          (ih
            ∙ ap (λ t. t ++ received events) d.kept
            ∙ append_assoc (held w) (received_from event) (received events))
  ]
    where
      ended :
          (ev : Event)
          → is_shutdown ev ≡ true
          → stored (run crypto coset pubkey sign_raw ((env, ev) ∷ events) w).storage
            ≡ held w ++ (if is_shutdown ev then [] else received_from ev ++ received events)
      ended shutdown last = shutdown-stored env events w signs g.0.0 h
      ended (add_message m) last = cc
      ended flush last = cc
      ended get_stats last = cc
      ended tick last = cc
