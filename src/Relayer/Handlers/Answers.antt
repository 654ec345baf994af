-- ===== src/Relayer/Handlers/Answers.antt =====
-- Every request is answered, and a key is reported as registered only where it is.
use synddb.Prelude.{
  ◌≤◌, ℕ, ◌+◌, ◌<◌, ◌≡◌, ◌⊎◌, refl, sym, ap, subst, ◌∙◌, Bool, true, false, String, Option, none,
  some, Result, ok, err, ◌>>=◌, ◌≢◌, ltb, leb, not, ◌%◌, Bool-cases, Result-cases, inl, inr,
  u64_mod,
}
use Prim.Native.String.{len}
use synddb.Shared.Bytes.{Bytes}
use synddb.Bootstrap.{trim_0x}
use synddb.Relayer.Config.{RelayerConfig, get_application, allows}
use synddb.Relayer.Submitter.{
  is_invalid_public_key_error, Chain, Registration, is_key_valid, wait_for_confirmation,
}
use synddb.Relayer.Submitter.Laws.{TimePasses, Waits, DecidedAt, wait_for_confirmation-Ends}
use synddb.Relayer.Handlers.{
  RegisterKeyRequest, status_ok, RegisterKeyResponse, Admission, admitted, register_key,
  after_check, after_send, confirmed, is_race, StatusCode, hex_or, found, reject_if,
  extract_attestation_fields,
}
use synddb.Relayer.Handlers.Admitting.{admitted-Admits}
use synddb.Relayer.Handlers.Laws.{Requests, Admits-Requests, key_of, or_either}
use synddb.Validator.Error.{contains_text}

-- The transaction has a receipt of success in time, and no poll before told anything.
abbrev pub ConfirmedInTime : Chain → ℕ → Bytes → Type 0
ConfirmedInTime chain timeout tx_hash =
    (until : ℕ) × Waits chain timeout tx_hash 0 until
    × (chain.elapsed until ≤ timeout)
    × (chain.receipt tx_hash until ≡ ok (some true))

-- The key is registered: the chain answered the call for it before, the registration was confirmed, or
-- the chain refused it because the key exists.
abbrev pub Registered : Chain → ℕ → Registration → Bytes → RegisterKeyResponse → Type 0
Registered chain timeout r key response =
    ((answer : Bool) × (chain.call_is_key_valid r.key_type key ≡ ok answer))
    ⊎ ((tx_hash : Bytes) × (chain.send r ≡ ok tx_hash)
        × ConfirmedInTime chain timeout tx_hash
        × (response.tx_hash ≡ some tx_hash))
    ⊎ ((e : String) × (chain.send r ≡ err e)
        × ((contains_text e "KeyAlreadyExists" ≡ true) ⊎ (contains_text e "0x2dc09057" ≡ true)))

valid-answered :
    (chain : Chain) (t : ℕ) (key : Bytes)
    → is_key_valid chain t key ≡ ok true
    → (answer : Bool) × (chain.call_is_key_valid t key ≡ ok answer)
valid-answered chain t key h = elim (Result-cases (chain.call_is_key_valid t key)) [
  | inl (v, good) ↦ (v, good)
  | inr (e, bad) ↦ elim (Bool-cases (is_invalid_public_key_error e)) [
    | inl yes' ↦ absurd (let f = rw (yes', is_key_valid) at (rw (bad, is_key_valid) at h) in cc)
    | inr no' ↦ absurd (let f = rw (no', is_key_valid) at (rw (bad, is_key_valid) at h) in cc)
  ]
]

-- Its errors are no success.
abbrev Refuses : {A : Type 0} → Result A RegisterKeyResponse → Type 0
Refuses x = (r : RegisterKeyResponse) → x ≡ err r → r.status ≡ status_ok → ⊥

bind-Refuses :
    {A B : Type 0} (m : Result A RegisterKeyResponse) (f : A → Result B RegisterKeyResponse)
    → Refuses m
    → ((a : A) → Refuses (f a))
    → Refuses (m >>= f)
bind-Refuses (ok a) f h k = k a
bind-Refuses (err e) f h k = λ r same s. let t : e ≡ r = cc in h r (ap (λ x. err x) t) s

found-Refuses :
    {A : Type 0} (o : Option A) (code : StatusCode) (error : String)
    → code ≢ status_ok
    → Refuses (found o code error)
found-Refuses none code error h = λ r e s. h cc
found-Refuses (some a) code error h = λ r e s. absurd cc

reject_if-Refuses :
    (b : Bool) (code : StatusCode) (error : String)
    → code ≢ status_ok
    → Refuses (reject_if b code error)
reject_if-Refuses true code error h = λ r e s. h cc
reject_if-Refuses false code error h = λ r e s. absurd cc

module _ (decode : String → Result Bytes String) where
  hex_or-Refuses : (what text : String) → Refuses (hex_or decode what text)
  hex_or-Refuses what text = elim (Result-cases (decode (trim_0x (len text) text))) [
    | inl (raw, good) ↦ rw (good, hex_or) (λ r e s. absurd cc)
    | inr (x, bad) ↦ rw (bad, hex_or) (λ r e s. absurd cc)
  ]

  admitted-Refuses :
      (config : RelayerConfig) (now : ℕ) (request : RegisterKeyRequest)
      → Refuses (admitted decode config now request)
  unfolding admitted
  admitted-Refuses config now request =
      bind-Refuses _ _ (hex_or-Refuses _ request.public_values) λ pv.
        bind-Refuses _ _ (found-Refuses (extract_attestation_fields pv) _ _ (λ e. cc)) λ f.
          bind-Refuses _ _ (found-Refuses (get_application config f.audience_hash) _ _ (λ e. cc))
            λ app.
              bind-Refuses _ _
                (reject_if-Refuses (not (allows app f.image_digest_hash)) _ _ (λ e. cc))
                λ u.
                  bind-Refuses _ _ (reject_if-Refuses (leb request.deadline now) _ _ (λ e. cc)) λ u.
                    bind-Refuses _ _
                      (reject_if-Refuses (ltb ((now + 86_400) % u64_mod) request.deadline) _ _
                        (λ e. cc))
                      λ u. bind-Refuses _ _ (hex_or-Refuses _ request.proof_bytes) λ pb.
                        bind-Refuses _ _ (hex_or-Refuses _ request.signature) λ sg r e s. absurd cc

module _ (decode : String → Result Bytes String) (chain : Chain) (time : TimePasses chain) where
  -- What an answer says, for a request that was admitted.
  abbrev Says : ℕ → Admission → RegisterKeyResponse → Type 0
  Says timeout a response =
      response.status ≡ status_ok
      → (response.registered_key ≡ some a.key)
        × Registered chain timeout a.registration a.key response

  abbrev Answers : ℕ → Admission → Option RegisterKeyResponse → Type 0
  Answers timeout a answer =
      (response : RegisterKeyResponse) × (answer ≡ some response) × Says timeout a response

  after_send-Answers :
      (timeout : ℕ) (a : Admission)
      → Answers timeout a (after_send chain timeout a.key (chain.send a.registration))
  after_send-Answers timeout a = go (chain.send a.registration) refl
    where
      result_of :
          (a b : Result (Unit {0}) String)
          → ◌≡◌ {A = Option (Result (Unit {0}) String)} (some a) (some b)
          → a ≡ b
      result_of a b h = cc

      in_time :
          (tx : Bytes) (r : Result (Unit {0}) String) (until : ℕ)
          → r ≡ ok tt
          → DecidedAt chain timeout tx r until
          → (chain.elapsed until ≤ timeout) × (chain.receipt tx until ≡ ok (some true))
      in_time tx r until e (inl (late, bad)) = absurd cc
      in_time tx r until e (inr (early, inl (receipt, good))) = (early, receipt)
      in_time tx r until e (inr (early, inr (receipt, bad))) = absurd cc

      waited :
          (tx : Bytes)
          → chain.send a.registration ≡ ok tx
          → (w : Option (Result (Unit {0}) String)) → wait_for_confirmation chain timeout tx ≡ w
          → Answers timeout a (confirmed a.key tx w)
      waited tx good none e = absurd (
          let (r, f, until, le, waits, decided) =
            wait_for_confirmation-Ends chain timeout tx time in
          cc)
      waited tx good (some (ok done)) e =
          let (r, f, until, le, waits, decided) =
            wait_for_confirmation-Ends chain timeout tx time in
          let same : r ≡ ok done = result_of r (ok done) (sym f ∙ e) in
          (
            _,
            refl,
            let (early, receipt) = in_time tx r until same decided in
                λ h. (refl, inr (inl (tx, good, (until, waits, early, receipt), refl))),
          )
      waited tx good (some (err e')) e = (_, refl, λ h. absurd cc)

      go :
          (x : Result Bytes String)
          → chain.send a.registration ≡ x
          → Answers timeout a (after_send chain timeout a.key x)
      go (ok tx) good = waited tx good (wait_for_confirmation chain timeout tx) refl
      go (err e) bad = elim (Bool-cases (is_race e)) [
        | inl race ↦ rw race (_, refl, λ h. (refl, inr (inr (e, bad, or_either _ _ race))))
        | inr other ↦ rw other (_, refl, λ h. absurd cc)
      ]

  after_check-Answers :
      (timeout : ℕ) (a : Admission) (v : Result Bool String)
      → is_key_valid chain a.registration.key_type a.key ≡ v
      → Answers timeout a (after_check chain timeout a v).response
  after_check-Answers timeout a (ok true) e =
      (_, refl, λ h. (refl, inl (valid-answered chain a.registration.key_type a.key e)))
  after_check-Answers timeout a (ok false) e = after_send-Answers timeout a
  after_check-Answers timeout a (err x) e = (_, refl, λ h. absurd cc)

  -- If at least a second passes between two polls and the clock is not at the end of its range, every
  -- request is answered. An answer with status OK is to a request that the configuration admits, reports
  -- the key in its public values, and that key is registered: the chain answered the call for it, the
  -- registration that was sent has a receipt of success in time, or the chain refused it with an error
  -- that says that the key exists.
  pub register_key-Answers :
      (config : RelayerConfig) (now : ℕ) (request : RegisterKeyRequest)
      → now + 86_400 < u64_mod
      → (response : RegisterKeyResponse) × ((register_key decode config chain now request).response
          ≡ some response)
        × (response.status ≡ status_ok
            → (r : Registration) × Requests decode config now request r
              × (response.registered_key ≡ some (key_of r.public_values))
              × Registered chain config.tx_confirmation_timeout r (key_of r.public_values) response)
  unfolding register_key
  register_key-Answers config now request small =
      elim (Result-cases (admitted decode config now request)) [
        | inr (r, bad) ↦
            rw bad (r, refl, λ h. absurd (admitted-Refuses decode config now request r bad h))
        | inl (a, good) ↦
            let (response, e, says) =
              after_check-Answers config.tx_confirmation_timeout a
                (is_key_valid chain a.registration.key_type a.key) refl in
            let (fields, admits, key) = admitted-Admits decode config now request a small good in
            let (requests, own) =
              Admits-Requests decode config now request a.registration fields admits in
            let same : a.key ≡ key_of a.registration.public_values = sym key ∙ own in
            rw good (
              response,
              e,
              λ h.
                  let (k, r) = says h in
                  (
                    a.registration,
                    requests,
                    k ∙ ap (λ x. some x) same,
                    subst
                        (λ x.
                          Registered chain config.tx_confirmation_timeout a.registration x response)
                        same r,
                  ),
            )
      ]
