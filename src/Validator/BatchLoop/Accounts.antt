-- ===== src/Validator/BatchLoop/Accounts.antt =====
-- The loop over batches accounts for every sequence it passes.
use synddb.Prelude.{
  ℕ, zero, suc, ◌+◌, ◌%◌, ◌≤◌, ◌<◌, ◌≡◌, refl, ap, subst, ◌∙◌, Bool, true, false, ◌||◌, ◌&&◌,
  String, Option, none, some, List, [], ◌∷◌, ltb, leb, get_elem?, if◌then◌else◌, Result, ok, err,
  u64_mod, Bool-cases, Result-cases, inl, inr, arith, All,
}
use synddb.Shared.BatchInfo.{BatchInfo, contains}
use synddb.Shared.Cbor.Crypto.{Crypto}
use synddb.Shared.Message.{
  SignedMessage, SignedBatch, Codec, verify_batch_signature, VerificationError,
}
use synddb.Validator.Error.{ValidatorError, signature_verification}
use synddb.Validator.Sqlite.{Sqlite}
use synddb.Validator.Applier.{extract_withdrawal}
use synddb.Validator.BatchIndex.{
  BatchIndex, refresh, checked, find_batch_containing, find_first_batch_starting_at_or_after,
}
use synddb.Validator.Sync.{
  Validator, ValidatorConfig, Env, ApplyResult, verify, recorded, then_recorded,
}
use synddb.Validator.Sync.Audited.{Audits, apply-Audits}
use synddb.Validator.Sync.One.{Logs, Recorded, recorded-Recorded}
use synddb.Validator.SyncLoop.Accounts.{
  is_in, in_gaps, is_in-append, in_gaps-append, longer_gaps, longer_synced,
}
use synddb.Validator.BatchLoop.{
  Round, BatchLoopState, Outcome, running, stopped, failed, noted, refreshed_by, refreshed,
  reported, handle_message, handle_messages, after_messages, verified_batch, fetched, skip_gap,
  no_batch, looked_up, iterate, run_batched,
}

-- Messages of one sequence after the other, below the last number of 64 bits.
abbrev pub Consecutive : ℕ → List SignedMessage → Type 0
Consecutive k [] = Unit {0}
Consecutive k (m ∷ ms) = (m.sequence ≡ k) × (k + 1 < u64_mod) × Consecutive (k + 1) ms

module _ {Conn : Type 0} where
  -- From a first sequence on, every sequence before the next one was reported to `on_sync` or lies in
  -- a gap that is written down.
  abbrev pub AccountsTo : ℕ → ℕ → Validator Conn → Type 0
  AccountsTo first next v =
      (n : ℕ) → first ≤ n → n < next → (is_in n v.synced || in_gaps n v.state.gaps) ≡ true

  abbrev pub AccountsAfter : ℕ → Outcome Conn → Type 0
  AccountsAfter first (running s) = AccountsTo first s.next_sequence s.validator
  AccountsAfter first (stopped s) = AccountsTo first s.next_sequence s.validator
  AccountsAfter first (failed s e) = AccountsTo first s.next_sequence s.validator

  fewer : (first a b : ℕ) (v : Validator Conn) → a ≤ b → AccountsTo first b v → AccountsTo first a v
  fewer first a b v le h = λ n lo hi. h n lo (omega (arith, le, hi))

  reported-Accounts :
      (first next : ℕ) (v : Validator Conn)
      → AccountsTo first next v
      → AccountsTo first (next + 1) (reported next v)
  reported-Accounts first next v h = λ n lo hi.
      let more = is_in-append n next v.synced in
      let old = h n lo in
      rw more (
        longer_synced (is_in n v.synced) _ _ (elim (Bool-cases (ltb n next)) [
          | inl before ↦ inl (old (ground arith))
          | inr not_before ↦ inr (let e : next ≡ n = ground arith in ground arith)
        ]))

module _ {Conn : Type 0} (sqlite : Sqlite Conn) (codec : Codec) (crypto : Crypto)
    (config : ValidatorConfig Conn) where
  logs_of :
      (env : Env) (sequence : ℕ) (v w : Validator Conn)
      (r : Validator Conn × Result (Unit {0}) ValidatorError)
      → Recorded sqlite codec crypto config env sequence v w r
      → Logs sqlite codec crypto config v r.0
  logs_of env sequence v w (v', ok done) h = h.0
  logs_of env sequence v w (v', err e) h = h.0

  handle_message-Logs :
      (env : Env) (m : SignedMessage) (v : Validator Conn)
      → Logs sqlite codec crypto config v (handle_message sqlite codec crypto config env m v).0
  unfolding handle_message
  handle_message-Logs env m v = elim (Result-cases (verify sqlite codec crypto config m)) [
    | inr (e, bad) ↦ rw (bad, handle_message) (refl, refl)
    | inl (valid, good) ↦
        rw (good, handle_message) (go _ (apply-Audits sqlite codec crypto config env m _))
  ]
    where
      go :
          (r : Validator Conn × Result ApplyResult ValidatorError)
          → Audits sqlite codec crypto config m
              (record v { withdrawals = noted (extract_withdrawal sqlite m) v.withdrawals })
              r
          → Logs sqlite codec crypto config v
              (then_recorded sqlite codec crypto config env m.sequence r).0
      go (x, err e) k = (k.synced, k.gaps)
      go (x, ok r) (k, handled) =
          logs_of env m.sequence v x (recorded sqlite codec crypto config env m.sequence x) (
            recorded-Recorded sqlite codec crypto config env m.sequence v x (k.synced, k.gaps)
              k.sequence)

  same_log :
      (first next : ℕ) (v v' : Validator Conn)
      → Logs sqlite codec crypto config v v'
      → AccountsTo first next v
      → AccountsTo first next v'
  same_log first next v v' l h = λ n lo hi.
      ap (λ t. is_in n t || in_gaps n v'.state.gaps) l.0
      ∙ ap (λ t. is_in n v.synced || in_gaps n t) l.1
      ∙ h n lo hi

  abbrev AccountsResult : ℕ → ℕ → Validator Conn × Result ℕ ValidatorError → Type 0
  AccountsResult first next (v, ok next') = AccountsTo first next' v
  AccountsResult first next (v, err e) = AccountsTo first next v

  less :
      (first a b : ℕ) (r : Validator Conn × Result ℕ ValidatorError)
      → a ≤ b
      → AccountsResult first b r
      → AccountsResult first a r
  less first a b (v, ok n) le h = h
  less first a b (v, err e) le h = fewer first a b v le h

  handle_messages-Accounts :
      (first : ℕ) (env : Env) (ms : List SignedMessage) (k next : ℕ) (v : Validator Conn)
      → Consecutive k ms
      → k ≤ next
      → AccountsTo first next v
      → AccountsResult first next (handle_messages sqlite codec crypto config env ms next v)
  unfolding handle_messages
  handle_messages-Accounts first env [] k next v c le h = h
  handle_messages-Accounts first env (m ∷ ms) k next v (e, small, c) le h =
      elim (Bool-cases (ltb m.sequence next)) [
        | inl skipped ↦
            rw (skipped, handle_messages)
              (handle_messages-Accounts first env ms (k + 1) next v c
                (behind m.sequence next k e skipped) h)
        | inr kept ↦
            let at : next ≡ k = exact m.sequence next k e kept le in
            let step : (m.sequence + 1) % u64_mod ≡ k + 1 = omega (arith, e, small) in
            rw (kept, handle_messages)
              (go at step (handle_message sqlite codec crypto config env m v)
                (handle_message-Logs env m v)
                (λ w on.
                  handle_messages-Accounts first env ms (k + 1) (k + 1) w c (omega arith) on))
      ]
    where
      behind : (s next k : ℕ) → s ≡ k → ltb s next ≡ true → k + 1 ≤ next
      behind s next k e h = ground arith

      exact : (s next k : ℕ) → s ≡ k → ltb s next ≡ false → k ≤ next → next ≡ k
      exact s next k e h le = ground arith

      go :
          next ≡ k
          → (m.sequence + 1) % u64_mod ≡ k + 1
          → (r : Validator Conn × Result (Unit {0}) ValidatorError)
          → Logs sqlite codec crypto config v r.0
          → ((w : Validator Conn)
              → AccountsTo first (k + 1) w
              → AccountsResult first
                  (k + 1)
                  (handle_messages sqlite codec crypto config env ms (k + 1) w))
          → AccountsResult first next (
              let (v', x) = r in
              elim x [
                | err e ↦ (v', err e)
                | ok done ↦
                    handle_messages sqlite codec crypto config env ms
                      ((m.sequence + 1) % u64_mod)
                      (reported m.sequence v')
              ])
      go at step (v', err x) l later = same_log first next v v' l h
      go at step (v', ok done) l later =
          let to : AccountsTo first m.sequence v' =
            fewer first m.sequence next v' (omega (arith, at, e)) (same_log first next v v' l h) in
          let on : AccountsTo first (k + 1) (reported m.sequence v') =
            fewer first (k + 1) (m.sequence + 1) (reported m.sequence v') (omega (arith, e))
              (reported-Accounts first m.sequence v' to) in
          rw step (
            less first next (k + 1)
              (handle_messages sqlite codec crypto config env ms (k + 1) (reported m.sequence v'))
              (omega (arith, at)) (later (reported m.sequence v') on))

  checked-start :
      (n : ℕ) (o : Option BatchInfo) (b : BatchInfo)
      → checked n o ≡ some b
      → (o ≡ some b) × (b.start_sequence ≤ n)
  checked-start n none b h = absurd cc
  checked-start n (some x) b h = elim (Bool-cases (contains x n)) [
    | inl inside ↦
        let same : ◌≡◌ {A = Option BatchInfo} (some x) (some b) = rw (inside, checked) at h in
        let e : x ≡ b = cc in (same, start_le n x b e inside)
    | inr outside ↦
        let gone : ◌≡◌ {A = Option BatchInfo} none (some b) = rw (outside, checked) at h in
        absurd cc
  ]
    where
      start_le : (n : ℕ) (x b : BatchInfo) → x ≡ b → contains x n ≡ true → b.start_sequence ≤ n
      start_le n x b e h =
          let t = ap (λ y. y.start_sequence) e in
          omega (arith, t, low x.start_sequence x.end_sequence n h)
        where
          low : (a c n : ℕ) → (leb a n && leb n c) ≡ true → a ≤ n
          low a c n h = ground arith

  get_elem?-All :
      (P : BatchInfo → Type 0) (bs : List BatchInfo) (i : ℕ) (b : BatchInfo)
      → All P bs
      → get_elem? bs i ≡ some b
      → P b
  get_elem?-All P [] i b a h = absurd cc
  get_elem?-All P (x ∷ bs) zero b a h = let e : x ≡ b = cc in subst P e a.0
  get_elem?-All P (x ∷ bs) (suc i) b a h = get_elem?-All P bs i b a.1 h

  find_batch_containing-start :
      (P : BatchInfo → Type 0) (index : BatchIndex) (n : ℕ) (b : BatchInfo)
      → All P index.batches
      → find_batch_containing index n ≡ some b
      → P b × (b.start_sequence ≤ n)
  unfolding find_batch_containing
  find_batch_containing-start P index n b a h =
      let (e, le) = checked-start n _ b (pick _ _ h) in (get_elem?-All P index.batches _ b a e, le)
    where
      pick :
          (z : Bool) (o : Option BatchInfo)
          → (if z then none else checked n o) ≡ some b
          → checked n o ≡ some b
      pick true o h = absurd cc
      pick false o h = h

  -- What the data layer promises of the batches it lists: each one that verifies has consecutive
  -- messages from the start that the listing says.
  abbrev pub Promises : (BatchInfo → Type 0) → Round → Type 0
  Promises P r =
      ((listed : List BatchInfo) → r.fetcher.list_batches ≡ ok listed → All P listed)
      × ((info : BatchInfo) (batch : SignedBatch)
          → P info
          → r.fetcher.get_batch_by_path info.path ≡ ok (some batch)
          → verify_batch_signature codec crypto batch ≡ ok tt
          → Consecutive info.start_sequence batch.messages)

  -- A state whose index has such batches, and an outcome with one.
  abbrev pub Sound : (BatchInfo → Type 0) → ℕ → BatchLoopState Conn → Type 0
  Sound P first s = All P s.index.batches × AccountsTo first s.next_sequence s.validator

  abbrev pub SoundAfter : (BatchInfo → Type 0) → ℕ → Outcome Conn → Type 0
  SoundAfter P first (running s) = Sound P first s
  SoundAfter P first (stopped s) = Sound P first s
  SoundAfter P first (failed s e) = Sound P first s

  refreshed-Sound :
      (P : BatchInfo → Type 0) (first : ℕ) (r : Round) (s : BatchLoopState Conn)
      → Promises P r
      → Sound P first s
      → Sound P first (refreshed r s)
  unfolding refresh
  refreshed-Sound P first r s p h =
      both (r.refresh_due || s.caught_up) (listing r.fetcher.list_batches refl)
    where
      listing :
          (l : Result (List BatchInfo) String)
          → r.fetcher.list_batches ≡ l
          → Sound P first (refreshed_by l s)
      listing (err e) q = h
      listing (ok listed) q = (p.0 listed q, h.1)

      both :
          (b : Bool)
          → Sound P first (refreshed_by r.fetcher.list_batches s)
          → Sound P first (if b then refreshed_by r.fetcher.list_batches s else s)
      both true k = k
      both false k = h

  after_messages-Sound :
      (P : BatchInfo → Type 0) (first : ℕ) (s : BatchLoopState Conn)
      (r : Validator Conn × Result ℕ ValidatorError)
      → All P s.index.batches
      → AccountsResult first s.next_sequence r
      → SoundAfter P first (after_messages sqlite codec crypto config s r)
  after_messages-Sound P first s (v, ok n) a h = (a, h)
  after_messages-Sound P first s (v, err e) a h = (a, h)

  skip_gap-Sound :
      (P : BatchInfo → Type 0) (first : ℕ) (env : Env) (s : BatchLoopState Conn) (gap_end : ℕ)
      → Sound P first s
      → SoundAfter P first (skip_gap sqlite codec crypto config env s gap_end)
  skip_gap-Sound P first env s gap_end h = elim (Bool-cases config.gap_skip_on_failure) [
    | inr keep ↦ rw keep h
    | inl skip ↦ elim (Result-cases env.write_gap) [
      | inr (e, bad) ↦ rw (skip, bad) h
      | inl (done, good) ↦
          rw (skip, good)
            (
              h.0,
              λ n lo hi.
                  let more =
                    in_gaps-append n s.next_sequence gap_end env.now s.validator.state.gaps in
                  let old = h.1 n lo in
                  rw more (
                    longer_gaps (is_in n s.validator.synced) _ _
                      (elim (Bool-cases (ltb n s.next_sequence)) [
                        | inl before ↦ inl (old (ground arith))
                        | inr not_before ↦ inr (ground arith)
                      ])),
            )
    ]
  ]

  verified_batch-Sound :
      (P : BatchInfo → Type 0) (first : ℕ) (env : Env) (s : BatchLoopState Conn) (k : ℕ)
      (batch : SignedBatch)
      → (verify_batch_signature codec crypto batch ≡ ok tt → Consecutive k batch.messages)
      → k ≤ s.next_sequence
      → Sound P first s
      → SoundAfter P first (verified_batch sqlite codec crypto config env s batch)
  verified_batch-Sound P first env s k batch c le h =
      go (verify_batch_signature codec crypto batch) refl
    where
      go :
          (x : Result (Unit {0}) VerificationError)
          → verify_batch_signature codec crypto batch ≡ x
          → SoundAfter P first (elim x [
            | err e ↦ failed s signature_verification
            | ok valid ↦ after_messages sqlite codec crypto config s (
                handle_messages sqlite codec crypto config env batch.messages s.next_sequence
                  s.validator)
          ])
      go (err e) bad = h
      go (ok valid) good = after_messages-Sound P first s _ h.0 (
          handle_messages-Accounts first env batch.messages k s.next_sequence s.validator (c good)
            le h.1)

  looked_up-Sound :
      (P : BatchInfo → Type 0) (first : ℕ) (r : Round) (s : BatchLoopState Conn)
      (o : Option BatchInfo)
      → Promises P r
      → find_batch_containing s.index s.next_sequence ≡ o
      → Sound P first s
      → SoundAfter P first (looked_up sqlite codec crypto config r s o)
  looked_up-Sound P first r s none p e h =
      go (find_first_batch_starting_at_or_after s.index s.next_sequence)
    where
      go :
          (o : Option BatchInfo)
          → SoundAfter P first (no_batch sqlite codec crypto config r.env s o)
      go none = h
      go (some b) = skip_gap-Sound P first r.env s b.start_sequence h
  looked_up-Sound P first r s (some info) p e h = go (r.fetcher.get_batch_by_path info.path) refl
    where
      go :
          (x : Result (Option SignedBatch) String)
          → r.fetcher.get_batch_by_path info.path ≡ x
          → SoundAfter P first (fetched sqlite codec crypto config r.env s x)
      go (err e) q = h
      go (ok none) q = h
      go (ok (some batch)) q =
          let (there, le) = find_batch_containing-start P s.index s.next_sequence info h.0 e in
          verified_batch-Sound P first r.env s info.start_sequence batch (p.1 info batch there q) le
            h

  iterate-Sound :
      (P : BatchInfo → Type 0) (first : ℕ) (r : Round) (s : BatchLoopState Conn)
      → Promises P r
      → Sound P first s
      → SoundAfter P first (iterate sqlite codec crypto config r s)
  unfolding iterate
  iterate-Sound P first r s p h =
      either r.env.shutdown (stopped s) _ h
        (looked_up-Sound P first r (refreshed r s) _ p refl (refreshed-Sound P first r s p h))
    where
      either :
          (b : Bool) (x y : Outcome Conn)
          → SoundAfter P first x
          → SoundAfter P first y
          → SoundAfter P first (if b then x else y)
      either true x y hx hy = hx
      either false x y hx hy = hy

  -- While the batches that are listed and verify have consecutive messages from the start that the
  -- listing says, the loop over batches never passes over a sequence silently: from where it accounts
  -- for all, every sequence before its next one was reported as synced or lies in a recorded gap,
  -- however the rounds go and whether the loop runs, is stopped or fails.
  pub run_batched-Sound :
      (P : BatchInfo → Type 0) (first : ℕ) (rounds : List Round) (s : BatchLoopState Conn)
      → All (Promises P) rounds
      → Sound P first s
      → SoundAfter P first (run_batched sqlite codec crypto config rounds s)
  unfolding run_batched
  run_batched-Sound P first [] s p h = h
  run_batched-Sound P first (r ∷ rs) s (p, ps) h =
      go (iterate sqlite codec crypto config r s) (iterate-Sound P first r s p h)
        (λ s' h'. run_batched-Sound P first rs s' ps h')
    where
      go :
          (o : Outcome Conn)
          → SoundAfter P first o
          → ((s' : BatchLoopState Conn)
              → Sound P first s'
              → SoundAfter P first (run_batched sqlite codec crypto config rs s'))
          → SoundAfter P first (elim o [
            | running s' ↦ run_batched sqlite codec crypto config rs s'
            | stopped s' ↦ stopped s'
            | failed s' e ↦ failed s' e
          ])
      go (running s') a later = later s' a
      go (stopped s') a later = a
      go (failed s' e) a later = a
