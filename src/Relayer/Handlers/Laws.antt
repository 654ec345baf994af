-- ===== src/Relayer/Handlers/Laws.antt =====
-- Which registrations are sent.
use synddb.Relayer.Handlers.Admitting.{
  Hex, Admits, admitted-Admits, Admits-admitted, sent_one, allowed-lookup, lookup-allowed,
}
use synddb.Relayer.Config.Laws.{Listed, contains-Listed, Listed-contains}
use synddb.Validator.Error.{contains_text}
use synddb.Shared.Bytes.{bytes_eq, bytes_eq→eq, bytes_eq_refl}
use synddb.Relayer.Config.{contains, no_digests}
use synddb.Prelude.{
  List, ◌++◌, ◌≢◌, ◌⊎◌, All, take, drop, length, Bool-cases, ◌||◌, ℕ, ◌+◌, ◌<◌, ◌≤◌, ◌≡◌, ◌↔◌, refl,
  sym, ap, subst, ◌∙◌, Bool, true, false, String, Option, some, [], ◌∷◌, ltb, Result, ok, err,
  arith, Result-cases, inl, inr, u64_mod,
}
use synddb.Shared.Bytes.{Bytes}
use synddb.Relayer.Config.{RelayerConfig, ApplicationConfig, lookup, is_digest_allowed}
use synddb.Relayer.Submitter.{Chain, Registration, is_key_valid}
use synddb.Relayer.Handlers.{
  RegisterKeyRequest, AttestationFields, extract_attestation_fields, key_code, admitted,
  register_key,
}

-- The parts of the public values: words of 32 bytes, the key in the last 20 of its word.
abbrev pub image_of : Bytes → Bytes
image_of public_values = take 32 (drop 96 public_values)

abbrev pub key_of : Bytes → Bytes
key_of public_values = take 20 (drop 140 public_values)

abbrev pub audience_of : Bytes → Bytes
audience_of public_values = take 32 (drop 224 public_values)

abbrev fields_of : Bytes → AttestationFields
fields_of public_values = record {
  image_digest_hash = image_of public_values;
  audience_hash = audience_of public_values;
  tee_signing_key = key_of public_values;
}

extract-fields_of :
    (raw : Bytes) (fields : AttestationFields)
    → extract_attestation_fields raw ≡ some fields
    → (352 ≤ length raw) × (fields ≡ fields_of raw)
unfolding extract_attestation_fields
extract-fields_of raw fields h = elim (Bool-cases (ltb (length raw) 352)) [
  | inl short ↦ absurd (let f = rw (short, extract_attestation_fields) at h in cc)
  | inr long ↦
      let f : ◌≡◌ {A = Option AttestationFields} (some (fields_of raw)) (some fields) =
        rw (long, extract_attestation_fields) at h in
      (ground arith, same (fields_of raw) fields f)
]
  where
    same : (a b : AttestationFields) → ◌≡◌ {A = Option AttestationFields} (some a) (some b) → b ≡ a
    same a b h = cc

fields_of-extract :
    (raw : Bytes) → 352 ≤ length raw → extract_attestation_fields raw ≡ some (fields_of raw)
unfolding extract_attestation_fields
fields_of-extract raw h =
    let long : ltb (length raw) 352 ≡ false = ground arith in
    rw (long, extract_attestation_fields) refl

-- The first application of an audience.
abbrev pub First : Bytes → List (Bytes × ApplicationConfig) → ApplicationConfig → Type 0
First audience apps app =
    (before : List (Bytes × ApplicationConfig)) × (after : List (Bytes × ApplicationConfig)) × (apps
      ≡ before ++ (audience, app) ∷ after)
    × All (λ x. x.0 ≢ audience) before

lookup-First :
    (h : Bytes) (apps : List (Bytes × ApplicationConfig)) (app : ApplicationConfig)
    → lookup h apps ≡ some app
    → First h apps app
lookup-First h [] app e = absurd cc
lookup-First h ((k, a) ∷ apps) app e = elim (Bool-cases (bytes_eq k h)) [
  | inl here ↦
      let f : ◌≡◌ {A = Option ApplicationConfig} (some a) (some app) = rw (here, lookup) at e in
      let same : a ≡ app = cc in
      (
        [],
        apps,
        ap (λ x. x ∷ apps) (ap (λ x. (x, a)) (bytes_eq→eq k h here) ∙ ap (λ x. (h, x)) same),
        tt,
      )
  | inr there ↦
      let (before, after, split, apart) = lookup-First h apps app (rw (there, lookup) at e) in
      (
        (k, a) ∷ before,
        after,
        ap (◌∷◌ (k, a)) split,
        (λ f. absurd (let t = ap (λ x. bytes_eq x h) f ∙ bytes_eq_refl h in cc), apart),
      )
]

lookup-before :
    (h : Bytes) (before after : List (Bytes × ApplicationConfig)) (app : ApplicationConfig)
    → All (λ x. x.0 ≢ h) before
    → lookup h (before ++ (h, app) ∷ after) ≡ some app
lookup-before h [] after app apart = let e = bytes_eq_refl h in rw (e, lookup) refl
lookup-before h ((k, a) ∷ before) after app (n, apart) = elim (Bool-cases (bytes_eq k h)) [
  | inl here ↦ absurd (n (bytes_eq→eq k h here))
  | inr there ↦ rw (there, lookup) (lookup-before h before after app apart)
]

-- The configuration has an application for the audience, and its list is empty or has the image.
abbrev pub Permits : RelayerConfig → Bytes → Bytes → Type 0
Permits config audience image =
    (app : ApplicationConfig) × First audience config.applications app
    × ((app.allowed_image_digests ≡ []) ⊎ Listed image app.allowed_image_digests)

allows-Listed :
    (ds : List Bytes) (d : Bytes)
    → (no_digests ds || contains d ds) ≡ true
    → (ds ≡ []) ⊎ Listed d ds
allows-Listed [] d h = inl refl
allows-Listed (x ∷ xs) d h = inr (contains-Listed d (x ∷ xs) h)

Listed-allows :
    (ds : List Bytes) (d : Bytes)
    → (ds ≡ []) ⊎ Listed d ds
    → (no_digests ds || contains d ds) ≡ true
Listed-allows [] d h = refl
Listed-allows (x ∷ xs) d (inl e) = absurd cc
Listed-allows (x ∷ xs) d (inr h) = Listed-contains d (x ∷ xs) h

-- The chain answers the call for a key with a revert that says it is not valid.
abbrev pub Unregistered : Chain → ℕ → Bytes → Type 0
Unregistered chain key_type key =
    (e : String) × (chain.call_is_key_valid key_type key ≡ err e)
    × ((contains_text e "InvalidPublicKey" ≡ true) ⊎ (contains_text e "0xffc44e88" ≡ true))

pub or_either : (a b : Bool) → (a || b) ≡ true → (a ≡ true) ⊎ (b ≡ true)
or_either true b h = inl refl
or_either false b h = inr h

either_or : (a b : Bool) → (a ≡ true) ⊎ (b ≡ true) → (a || b) ≡ true
either_or true b h = refl
either_or false b (inl h) = absurd cc
either_or false b (inr h) = h

invalid-Unregistered :
    (chain : Chain) (t : ℕ) (key : Bytes)
    → is_key_valid chain t key ≡ ok false
    → Unregistered chain t key
invalid-Unregistered chain t key h = elim (Result-cases (chain.call_is_key_valid t key)) [
  | inl (v, good) ↦ absurd (let f = rw (good, is_key_valid) at h in cc)
  | inr (e, bad) ↦
      elim (Bool-cases (contains_text e "InvalidPublicKey" || contains_text e "0xffc44e88")) [
        | inl yes' ↦ (e, bad, or_either _ _ yes')
        | inr no' ↦ absurd (let f = rw (no', is_key_valid) at (rw (bad, is_key_valid) at h) in cc)
      ]
]

Unregistered-invalid :
    (chain : Chain) (t : ℕ) (key : Bytes)
    → Unregistered chain t key
    → is_key_valid chain t key ≡ ok false
Unregistered-invalid chain t key (e, bad, says) =
    let yes' = either_or _ _ says in rw (bad, is_key_valid) (rw yes' refl)

module _ (decode : String → Result Bytes String) where
  -- What a request must be for a registration: of an image that the configuration allows for the
  -- audience, both read from the public values, and with a deadline in the day ahead.
  abbrev pub Requests : RelayerConfig → ℕ → RegisterKeyRequest → Registration → Type 0
  Requests config now request r =
      Hex decode request.public_values r.public_values
      × Hex decode request.proof_bytes r.proof_bytes
      × Hex decode request.signature r.signature
      × (352 ≤ length r.public_values)
      × Permits config (audience_of r.public_values) (image_of r.public_values)
      × (now < request.deadline)
      × (request.deadline ≤ now + 86_400)
      × (r.deadline ≡ request.deadline)
      × (r.key_type ≡ key_code request.key_type)

  pub Admits-Requests :
      (config : RelayerConfig) (now : ℕ) (request : RegisterKeyRequest) (r : Registration)
      (fields : AttestationFields)
      → Admits decode config now request r fields
      → Requests config now request r × (fields.tee_signing_key ≡ key_of r.public_values)
  Admits-Requests config now request r fields (pv, pb, sg, ef, allowed, after, before, ed, ek) =
      let (long, same) = extract-fields_of r.public_values fields ef in
      let (app, there, digest) =
        allowed-lookup decode config (audience_of r.public_values) (image_of r.public_values) (
          ap (λ f. is_digest_allowed config f.audience_hash f.image_digest_hash) (sym same)
          ∙ allowed) in
      (
        (
          pv,
          pb,
          sg,
          long,
          (
            app,
            lookup-First _ config.applications app there,
            allows-Listed app.allowed_image_digests _ digest,
          ),
          after,
          before,
          ed,
          ek,
        ),
        ap (λ f. f.tee_signing_key) same,
      )

  Requests-Admits :
      (config : RelayerConfig) (now : ℕ) (request : RegisterKeyRequest) (r : Registration)
      → Requests config now request r
      → Admits decode config now request r (fields_of r.public_values)
  Requests-Admits config now request r
        (pv, pb, sg, long, (app, (first, rest, split, apart), listed), after, before, ed, ek) =
      let audience = audience_of r.public_values in
      let there : lookup audience config.applications ≡ some app =
        ap (lookup audience) split ∙ lookup-before audience first rest app apart in
      (
        pv,
        pb,
        sg,
        fields_of-extract r.public_values long,
        lookup-allowed decode config audience (image_of r.public_values) app there
            (Listed-allows app.allowed_image_digests _ listed),
        after,
        before,
        ed,
        ek,
      )

  -- Where the clock is not at the end of its range, exactly one registration is sent, and it is this
  -- one, if and only if the texts of the request are its parts in hexadecimal, its public values are of
  -- at least 352 bytes and of an image that the first application for their audience lists or, with an
  -- empty list, does not restrict, its deadline is in the day ahead, and the chain reverts the call for
  -- the key in the public values, with an error that says that the key is not valid.
  pub register_key-Sends :
      (config : RelayerConfig) (chain : Chain) (now : ℕ) (request : RegisterKeyRequest)
      (r : Registration)
      → now + 86_400 < u64_mod
      → (register_key decode config chain now request).sent ≡ r ∷ []
        ↔ (Requests config now request r × Unregistered chain r.key_type (key_of r.public_values))
  unfolding register_key
  register_key-Sends config chain now request r small = (
    λ h.
        let (a, e, same, v) =
          sent_one decode chain config.tx_confirmation_timeout (admitted decode config now request)
            r h in
        let (fields, admits, key) = admitted-Admits decode config now request a small e in
        let (requests, own) = Admits-Requests config now request a.registration fields admits in
        let valid = ap (is_key_valid chain a.registration.key_type) (sym own ∙ key) ∙ v in
        (
          subst (Requests config now request) same requests,
          subst (λ x. Unregistered chain x.key_type (key_of x.public_values)) same
              (invalid-Unregistered chain a.registration.key_type _ valid),
        ),
    λ (requests, v).
        rw
          (Admits-admitted decode config now request r (fields_of r.public_values) small
            (Requests-Admits config now request r requests))
          (rw (Unregistered-invalid chain r.key_type _ v) refl),
  )
