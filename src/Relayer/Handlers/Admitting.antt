-- ===== src/Relayer/Handlers/Admitting.antt =====
-- Which requests pass the checks, in the words of the code.
use synddb.Prelude.{
  ℕ, ◌+◌, ◌%◌, ◌<◌, ◌≤◌, ◌≡◌, refl, sym, subst, Bool, true, false, not, String, Option, none, some,
  [], ◌∷◌, ltb, leb, Result, ok, err, bind-ok, arith, Option-cases, Result-cases, inl, inr, u64_mod,
}
use Prim.Native.String.{len}
use synddb.Shared.Bytes.{Bytes}
use synddb.Bootstrap.{trim_0x}
use synddb.Relayer.Config.{
  RelayerConfig, ApplicationConfig, lookup, get_application, allows, allowed_in, is_digest_allowed,
}
use synddb.Relayer.Submitter.{Chain, Registration, is_key_valid}
use synddb.Relayer.Handlers.{
  RegisterKeyRequest, StatusCode, RegisterKeyResponse, AttestationFields,
  extract_attestation_fields, key_code, reject_if, found, hex_or, Admission, admitted, submitted,
  after_check,
}

module _ (decode : String → Result Bytes String) where
  -- The bytes of a hexadecimal text.
  abbrev pub Hex : String → Bytes → Type 0
  Hex text raw = decode (trim_0x (len text) text) ≡ ok raw

  -- What a request must be for a registration: of an image that the configuration allows for the
  -- audience, and with a deadline in the day ahead.
  abbrev pub Admits :
      RelayerConfig → ℕ → RegisterKeyRequest → Registration → AttestationFields → Type 0
  Admits config now request r fields =
      Hex request.public_values r.public_values
      × Hex request.proof_bytes r.proof_bytes
      × Hex request.signature r.signature
      × (extract_attestation_fields r.public_values ≡ some fields)
      × (is_digest_allowed config fields.audience_hash fields.image_digest_hash ≡ true)
      × (now < request.deadline)
      × (request.deadline ≤ now + 86_400)
      × (r.deadline ≡ request.deadline)
      × (r.key_type ≡ key_code request.key_type)

  hex_or-Hex : (what text : String) (raw : Bytes) → hex_or decode what text ≡ ok raw → Hex text raw
  hex_or-Hex what text raw h = elim (Result-cases (decode (trim_0x (len text) text))) [
    | inl (x, good) ↦
        let f : ◌≡◌ {A = Result Bytes RegisterKeyResponse} (ok x) (ok raw) =
          rw (good, hex_or) at h in
        cc
    | inr (e, bad) ↦ absurd (let f = rw (bad, hex_or) at h in cc)
  ]

  Hex-hex_or : (what text : String) (raw : Bytes) → Hex text raw → hex_or decode what text ≡ ok raw
  Hex-hex_or what text raw h = rw (h, hex_or) refl

  pub allowed-lookup :
      (config : RelayerConfig) (h d : Bytes)
      → is_digest_allowed config h d ≡ true
      → (app : ApplicationConfig) × (lookup h config.applications ≡ some app)
        × (allows app d ≡ true)
  unfolding is_digest_allowed
  allowed-lookup config h d e = elim (Option-cases (lookup h config.applications)) [
    | inl gone ↦ absurd (let f = rw (gone, allowed_in) at e in cc)
    | inr (app, there) ↦ (app, there, rw (there, allowed_in) at e)
  ]

  pub lookup-allowed :
      (config : RelayerConfig) (h d : Bytes) (app : ApplicationConfig)
      → lookup h config.applications ≡ some app
      → allows app d ≡ true
      → is_digest_allowed config h d ≡ true
  unfolding is_digest_allowed
  lookup-allowed config h d app there e = rw (there, allowed_in) e

  found-some :
      {A : Type 0} (o : Option A) (c : StatusCode) (error : String) (a : A)
      → found o c error ≡ ok a
      → o ≡ some a
  found-some none c error a h = absurd cc
  found-some (some x) c error a h = cc

  not_rejected :
      (b : Bool) (c : StatusCode) (error : String) (u : Unit {0})
      → reject_if b c error ≡ ok u
      → b ≡ false
  not_rejected true c error u h = absurd cc
  not_rejected false c error u h = refl

  holds_if_not : (b : Bool) → not b ≡ false → b ≡ true
  holds_if_not true h = refl
  holds_if_not false h = absurd cc

  after_now : (now d : ℕ) → leb d now ≡ false → now < d
  after_now now d h = ground arith

  within : (now : ℕ) → now + 86_400 < u64_mod → (now + 86_400) % u64_mod ≡ now + 86_400
  within now small = omega (arith, small)

  in_day :
      (now d : ℕ)
      → now + 86_400 < u64_mod
      → ltb ((now + 86_400) % u64_mod) d ≡ false
      → d ≤ now + 86_400
  in_day now d small far = let e = within now small in ground arith

  not_past : (now d : ℕ) → now < d → leb d now ≡ false
  not_past now d h = ground arith

  not_far :
      (now d : ℕ)
      → now + 86_400 < u64_mod
      → d ≤ now + 86_400
      → ltb ((now + 86_400) % u64_mod) d ≡ false
  not_far now d small h = let e = within now small in ground arith

  -- The checks pass exactly for the registrations that the request must be for.
  pub admitted-Admits :
      (config : RelayerConfig) (now : ℕ) (request : RegisterKeyRequest) (a : Admission)
      → now + 86_400 < u64_mod
      → admitted decode config now request ≡ ok a
      → (fields : AttestationFields) × Admits config now request a.registration fields
        × (fields.tee_signing_key ≡ a.key)
  unfolding admitted
  admitted-Admits config now request a small h =
      let (pv, epv, h1) = bind-ok (hex_or decode _ request.public_values) _ a h in
      let (f, ef, h2) = bind-ok (found (extract_attestation_fields pv) _ _) _ a h1 in
      let (app, eapp, h3) = bind-ok (found (get_application config f.audience_hash) _ _) _ a h2 in
      let (u1, e1, h4) = bind-ok (reject_if (not (allows app f.image_digest_hash)) _ _) _ a h3 in
      let (u2, e2, h5) = bind-ok (reject_if (leb request.deadline now) _ _) _ a h4 in
      let (u3, e3, h6) =
        bind-ok (reject_if (ltb ((now + 86_400) % u64_mod) request.deadline) _ _) _ a h5 in
      let (pb, epb, h7) = bind-ok (hex_or decode _ request.proof_bytes) _ a h6 in
      let (sg, esg, h8) = bind-ok (hex_or decode _ request.signature) _ a h7 in
      let digest : allows app f.image_digest_hash ≡ true =
        holds_if_not (allows app f.image_digest_hash) (not_rejected _ _ _ u1 e1) in
      let past = not_rejected (leb request.deadline now) _ _ u2 e2 in
      let far = not_rejected (ltb ((now + 86_400) % u64_mod) request.deadline) _ _ u3 e3 in
      whole a _
        (
          f,
          (
            hex_or-Hex _ request.public_values pv epv,
            hex_or-Hex _ request.proof_bytes pb epb,
            hex_or-Hex _ request.signature sg esg,
            found-some _ _ _ f ef,
            lookup-allowed config f.audience_hash f.image_digest_hash app
                (found-some _ _ _ app eapp) digest,
            after_now now request.deadline past,
            in_day now request.deadline small far,
            refl,
            refl,
          ),
          refl,
        )
        h8
    where
      whole :
          (a built : Admission)
          → ((fields : AttestationFields) × Admits config now request built.registration fields
              × (fields.tee_signing_key ≡ built.key))
          → ◌≡◌ {A = Result Admission RegisterKeyResponse} (ok built) (ok a)
          → (fields : AttestationFields) × Admits config now request a.registration fields
            × (fields.tee_signing_key ≡ a.key)
      whole a built h e =
          let same : built ≡ a = cc in
          subst
            (λ x.
              (fields : AttestationFields) × Admits config now request x.registration fields
              × (fields.tee_signing_key ≡ x.key))
            same h

  pub Admits-admitted :
      (config : RelayerConfig) (now : ℕ) (request : RegisterKeyRequest) (r : Registration)
      (fields : AttestationFields)
      → now + 86_400 < u64_mod
      → Admits config now request r fields
      → admitted decode config now request
        ≡ ok (record { registration = r; key = fields.tee_signing_key })
  unfolding admitted
  Admits-admitted config now request r fields small
        (pv, pb, sg, ef, allowed, after, before, ed, ek) =
      let (app, there, digest) =
        allowed-lookup config fields.audience_hash fields.image_digest_hash allowed in
      let e1 = Hex-hex_or "Invalid public_values hex: " request.public_values r.public_values pv in
      let e2 = Hex-hex_or "Invalid proof_bytes hex: " request.proof_bytes r.proof_bytes pb in
      let e3 = Hex-hex_or "Invalid signature hex: " request.signature r.signature sg in
      let past : leb request.deadline now ≡ false = not_past now request.deadline after in
      let far : ltb ((now + 86_400) % u64_mod) request.deadline ≡ false =
        not_far now request.deadline small before in
      rw e1 (
        rw ef (
          rw there (rw digest (rw past (rw far (rw e2 (rw e3 (rw (sym ek) (rw (sym ed) refl)))))))))

  pub sent_one :
      (chain : Chain) (timeout : ℕ) (x : Result Admission RegisterKeyResponse) (r : Registration)
      → (submitted chain timeout x).sent ≡ r ∷ []
      → (a : Admission) × (x ≡ ok a)
        × (a.registration ≡ r)
        × (is_key_valid chain a.registration.key_type a.key ≡ ok false)
  sent_one chain timeout (err e) r h = absurd cc
  sent_one chain timeout (ok a) r h =
      let (e, v) = checked (is_key_valid chain a.registration.key_type a.key) h in (a, refl, e, v)
    where
      checked :
          (v : Result Bool String)
          → (after_check chain timeout a v).sent ≡ r ∷ []
          → (a.registration ≡ r) × (v ≡ ok false)
      checked (ok true) h = absurd cc
      checked (ok false) h = (cc, refl)
      checked (err e) h = absurd cc
