-- ===== src/Validator/Sync/Head.antt =====
-- Syncing to the head: one sequence after the other, until none is left or one fails.
use synddb.Prelude.{
  ℕ, zero, suc, ◌+◌, ◌-◌, ◌%◌, ◌≤◌, ◌<◌, ◌≡◌, ◌≢◌, refl, sym, ◌∙◌, Bool, true, false, none, leb,
  arith, Result, ok, err, Bool-cases, inl, inr, u64_mod,
}
use synddb.Shared.Cbor.Crypto.{Crypto}
use synddb.Shared.Message.{Codec}
use synddb.Validator.Error.{ValidatorError}
use synddb.Validator.Sqlite.{Sqlite}
use synddb.Validator.Store.{next_sequence}
use synddb.Validator.Sync.{
  Validator, ValidatorConfig, Env, sync_one, sync_one_with_callback, sync_from, sync_to_head,
}

module _ {Conn : Type 0} (sqlite : Sqlite Conn) (codec : Codec) (crypto : Crypto)
    (config : ValidatorConfig Conn) where
  -- `n` sequences from `next` on are synced, one after the other, up to `last`.
  abbrev pub Syncs : Env → ℕ → ℕ → Validator Conn → ℕ → Validator Conn → Type 0
  Syncs env zero next v last v' = (last ≡ next) × (v' ≡ v)
  Syncs env (suc n) next v last v' =
      (w : Validator Conn) × (sync_one sqlite codec crypto config env next v ≡ (w, ok true))
      × Syncs env n ((next + 1) % u64_mod) w last v'

  -- And there it stops: the next sequence is not synced.
  abbrev pub StopsAt : Env → ℕ → ℕ → Validator Conn → ℕ → Validator Conn → Type 0
  StopsAt env n next v last v' =
      (w : Validator Conn) × Syncs env n next v last w
      × (r : Result Bool ValidatorError) × (sync_one sqlite codec crypto config env last w
          ≡ (v', r))
      × (r ≢ ok true)

  sync_one-none :
      (env : Env) (s : ℕ) (v : Validator Conn)
      → env.get s ≡ ok none
      → sync_one sqlite codec crypto config env s v ≡ (v, ok false)
  unfolding sync_one sync_one_with_callback
  sync_one-none env s v e = rw (e, sync_one, sync_one_with_callback) refl

  -- One round, with what the later rounds do.
  sync_step :
      (fuel : ℕ) (env : Env) (next : ℕ) (v : Validator Conn)
      (one : Validator Conn × Result Bool ValidatorError)
      → sync_one sqlite codec crypto config env next v ≡ one
      → ((w : Validator Conn)
          → one ≡ (w, ok true)
          → let (v', n, last) =
              sync_from sqlite codec crypto config fuel env ((next + 1) % u64_mod) w in
            StopsAt env n ((next + 1) % u64_mod) w last v')
      → let (v', n, last) = sync_from sqlite codec crypto config (suc fuel) env next v in
        StopsAt env n next v last v'
  unfolding sync_from
  sync_step fuel env next v (w, ok false) e later =
      rw (e, sync_from) (v, (refl, refl), ok false, e, λ t. cc)
  sync_step fuel env next v (w, err x) e later =
      rw (e, sync_from) (v, (refl, refl), err x, e, λ t. cc)
  sync_step fuel env next v (w, ok true) e later =
      let (x, syncs, r, stop, other) = later w refl in
      rw (e, sync_from) (x, (w, e, syncs), r, stop, other)

  sync_from-StopsAt :
      (fuel : ℕ) (env : Env) (limit next : ℕ) (v : Validator Conn)
      → limit < u64_mod
      → ((s : ℕ) → limit ≤ s → env.get s ≡ ok none)
      → limit - next < fuel
      → let (v', n, last) = sync_from sqlite codec crypto config fuel env next v in
        StopsAt env n next v last v'
  sync_from-StopsAt zero env limit next v h ends f = absurd (omega arith)
  sync_from-StopsAt (suc fuel) env limit next v h ends f = sync_step fuel env next v _ refl λ w e.
      elim (Bool-cases (leb limit next)) [
        | inl past ↦
            let none' = sync_one-none env next v (ends next (ground arith)) in
            absurd (let bad : (v, ok false) ≡ (w, ok true) = sym none' ∙ e in cc)
        | inr before ↦
            let lt : next < limit = ground arith in
            sync_from-StopsAt fuel env limit ((next + 1) % u64_mod) w h ends (omega arith)
      ]

  -- If the fetcher has nothing from some sequence on, then with that much fuel the sync ends: it
  -- synced the reported number of sequences, each right after the one before, starting from the
  -- recorded state, and the sequence after them has no message or fails.
  pub sync_to_head-StopsAt :
      (fuel : ℕ) (env : Env) (limit : ℕ) (v : Validator Conn)
      → limit < u64_mod
      → ((s : ℕ) → limit ≤ s → env.get s ≡ ok none)
      → limit < fuel
      → let (v', n) = sync_to_head sqlite codec crypto config fuel env v in
        (last : ℕ) × StopsAt env n (next_sequence v.state) v last v'
  unfolding sync_to_head
  sync_to_head-StopsAt fuel env limit v h ends f =
      let last = (sync_from sqlite codec crypto config fuel env (next_sequence v.state) v).2 in
      (last, sync_from-StopsAt fuel env limit (next_sequence v.state) v h ends (omega arith))
