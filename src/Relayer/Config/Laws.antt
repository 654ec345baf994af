-- ===== src/Relayer/Config/Laws.antt =====
-- Which images a configuration allows.
use synddb.Prelude.{
  ◌≡◌, ◌↔◌, ◌⊎◌, refl, sym, ap, subst, ◌∙◌, ◌||◌, Bool, true, false, String, Option, none, some,
  List, [], ◌∷◌, if◌then◌else◌, Result, ok, bind-ok, arith, All, Bool-cases, Option-cases, inl, inr,
}
use synddb.Shared.Bytes.{Bytes, bytes_eq, bytes_eq→eq, bytes_eq_refl}
use synddb.Relayer.Text.{trim, split, is_empty}
use synddb.Relayer.Config.{
  ApplicationConfig, CliConfig, RelayerConfig, contains, no_digests, is_digest_allowed, allowed_in,
  required, parse_b256, parse_all, digests_of, valid_private_key, from_env,
}

abbrev pub Listed : Bytes → List Bytes → Type 0
Listed d [] = ⊥
Listed d (x ∷ xs) = (x ≡ d) ⊎ Listed d xs

pub contains-Listed : (d : Bytes) (ds : List Bytes) → contains d ds ≡ true → Listed d ds
contains-Listed d [] h = absurd cc
contains-Listed d (x ∷ xs) h = elim (Bool-cases (bytes_eq x d)) [
  | inl same ↦ inl (bytes_eq→eq x d same)
  | inr other ↦ inr (contains-Listed d xs (rw other at h))
]

pub Listed-contains : (d : Bytes) (ds : List Bytes) → Listed d ds → contains d ds ≡ true
Listed-contains d [] h = elim h [ ]
Listed-contains d (x ∷ xs) (inl e) =
    ap (λ y. bytes_eq y d || contains d xs) e ∙ ap (λ b. b || contains d xs) (bytes_eq_refl d)
Listed-contains d (x ∷ xs) (inr h) = either (bytes_eq x d) (Listed-contains d xs h)
  where
    either : (b : Bool) {c : Bool} → c ≡ true → (b || c) ≡ true
    either true h = refl
    either false h = h

module _ (decode : String → Result Bytes String) (keccak256 : String → Bytes) where
  -- The parts of the text, none if it is empty.
  abbrev pub parts_of : String → List String
  parts_of allowed = if is_empty allowed then [] else split 44 allowed

  -- A part that is the digest, in hexadecimal.
  abbrev pub Names : Bytes → List String → Type 0
  Names d [] = ⊥
  Names d (p ∷ ps) = (parse_b256 decode keccak256 (trim p) ≡ some d) ⊎ Names d ps

  -- No part is a digest.
  abbrev pub NamesNone : List String → Type 0
  NamesNone ps = All (λ p. parse_b256 decode keccak256 (trim p) ≡ none) ps

  digests_of-parts :
      (allowed : String)
      → digests_of decode keccak256 allowed ≡ parse_all decode keccak256 (parts_of allowed)
  unfolding digests_of parse_all
  digests_of-parts allowed = elim (Bool-cases (is_empty allowed)) [
    | inl e ↦ rw e refl
    | inr f ↦ rw f refl
  ]

  no_digests-NamesNone :
      (ps : List String) → no_digests (parse_all decode keccak256 ps) ≡ true ↔ NamesNone ps
  unfolding parse_all
  no_digests-NamesNone [] = (λ h. tt, λ h. refl)
  no_digests-NamesNone (p ∷ ps) = elim (Option-cases (parse_b256 decode keccak256 (trim p))) [
    | inl gone ↦
        rw (gone, parse_all)
          (λ h. (refl, (no_digests-NamesNone ps).0 h), λ h. (no_digests-NamesNone ps).1 h.1)
    | inr (d, there) ↦ rw (there, parse_all) (λ h. absurd cc, λ h. absurd (let e = h.0 in cc))
  ]

  Listed-Names :
      (d : Bytes) (ps : List String) → Listed d (parse_all decode keccak256 ps) ↔ Names d ps
  unfolding parse_all
  Listed-Names d [] = (λ h. h, λ h. h)
  Listed-Names d (p ∷ ps) = elim (Option-cases (parse_b256 decode keccak256 (trim p))) [
    | inl gone ↦
        rw (gone, parse_all)
          (
            λ h. inr ((Listed-Names d ps).0 h),
            λ h. elim h [ inl e ↦ absurd cc | inr r ↦ (Listed-Names d ps).1 r ],
          )
    | inr (x, there) ↦
        rw (there, parse_all)
          (
            λ h. elim h [
              | inl e ↦ inl (ap (λ y. some y) e)
              | inr r ↦ inr ((Listed-Names d ps).0 r)
            ],
            λ h. elim h [
              | inl e ↦ inl (let f : x ≡ d = cc in f)
              | inr r ↦ inr ((Listed-Names d ps).1 r)
            ],
          )
  ]

  -- What the arguments allow: their audience, and one of their digests, or any image where no part of
  -- the list is a digest.
  abbrev pub Allowed : CliConfig → Bytes → Bytes → Type 0
  Allowed cli audience_hash image_digest =
      (audience : String) × (allowed : String) × (cli.required_audience ≡ some audience)
      × (cli.allowed_image_digests ≡ some allowed)
      × (keccak256 audience ≡ audience_hash)
      × (NamesNone (parts_of allowed) ⊎ Names image_digest (parts_of allowed))

  required-given :
      (a : Option String) (name : String) (x : String) → required a name ≡ ok x → a ≡ some x
  required-given none name x h = absurd cc
  required-given (some a) name x h = cc

  allows-Allowed :
      (ps : List String) (d : Bytes)
      → (no_digests (parse_all decode keccak256 ps) || contains d (parse_all decode keccak256 ps))
          ≡ true
        ↔ NamesNone ps ⊎ Names d ps
  allows-Allowed ps d = (
    λ h. elim (Bool-cases (no_digests (parse_all decode keccak256 ps))) [
      | inl e ↦ inl ((no_digests-NamesNone ps).0 e)
      | inr f ↦
          inr
            ((Listed-Names d ps).0 (contains-Listed d (parse_all decode keccak256 ps) (rw f at h)))
    ],
    λ h. elim h [
      | inl n ↦
          ap (λ b. b || contains d (parse_all decode keccak256 ps)) ((no_digests-NamesNone ps).1 n)
      | inr l ↦
          right (no_digests (parse_all decode keccak256 ps))
            (Listed-contains d (parse_all decode keccak256 ps) ((Listed-Names d ps).1 l))
    ],
  )
    where
      right : (b : Bool) {c : Bool} → c ≡ true → (b || c) ≡ true
      right true h = refl
      right false h = h

  abbrev one_application : String → String → List (Bytes × ApplicationConfig)
  one_application audience allowed =
      (
        keccak256 audience,
        record { audience = audience; allowed_image_digests = digests_of decode keccak256 allowed },
      )
      ∷ []

  from_env-applications :
      (cli : CliConfig) (config : RelayerConfig)
      → from_env decode keccak256 cli ≡ ok config
      → (audience : String) × (allowed : String) × (cli.required_audience ≡ some audience)
        × (cli.allowed_image_digests ≡ some allowed)
        × (config.applications ≡ one_application audience allowed)
  unfolding from_env
  from_env-applications cli config h =
      let (u, eu, h1) = bind-ok (required cli.rpc_url "RPC_URL is required") _ config h in
      let (c, ec, h2) = bind-ok (required cli.chain_id "CHAIN_ID is required") _ config h1 in
      let (b, eb, h3) =
        bind-ok (required cli.bridge_address "BRIDGE_CONTRACT_ADDRESS is required") _ config h2 in
      let (k, ek, h4) =
        bind-ok (required cli.private_key "RELAYER_PRIVATE_KEY is required") _ config h3 in
      let (allowed, ed, h5) =
        bind-ok (required cli.allowed_image_digests "ALLOWED_IMAGE_DIGESTS is required") _ config
          h4 in
      let (audience, ea, h6) =
        bind-ok (required cli.required_audience "REQUIRED_AUDIENCE is required") _ config h5 in
      let (t, et, h7) = bind-ok (valid_private_key decode keccak256 k) _ config h6 in
      (
        audience,
        allowed,
        required-given cli.required_audience "REQUIRED_AUDIENCE is required" audience ea,
        required-given cli.allowed_image_digests "ALLOWED_IMAGE_DIGESTS is required" allowed ed,
        applications_of _ config h7,
      )
    where
      applications_of :
          (c config : RelayerConfig)
          → ◌≡◌ {A = Result RelayerConfig String} (ok c) (ok config)
          → config.applications ≡ c.applications
      applications_of c config h = ground arith

  one_application-Allowed :
      (audience allowed : String) (a d : Bytes)
      → allowed_in (one_application audience allowed) a d ≡ true
        ↔ (keccak256 audience ≡ a) × (NamesNone (parts_of allowed) ⊎ Names d (parts_of allowed))
  one_application-Allowed audience allowed a d =
      elim (Bool-cases (bytes_eq (keccak256 audience) a)) [
        | inl same ↦
            rw (same, allowed_in)
              (rw (digests_of-parts allowed) (
                λ h. (
                  bytes_eq→eq (keccak256 audience) a same,
                  (allows-Allowed (parts_of allowed) d).0 h,
                ),
                λ h. (allows-Allowed (parts_of allowed) d).1 h.1,
              ))
        | inr other ↦
            rw (other, allowed_in)
              (
                λ h. absurd cc,
                λ h. absurd (
                    let e =
                      ap (bytes_eq (keccak256 audience)) (sym h.0)
                      ∙ bytes_eq_refl (keccak256 audience) in
                    cc),
              )
      ]

  -- A configuration read from the arguments allows an image exactly as they say: for the hash of their
  -- audience, one of the listed digests; every image if no part of the list is a digest, be it empty or
  -- unreadable.
  pub from_env-Allowed :
      (cli : CliConfig) (config : RelayerConfig)
      → from_env decode keccak256 cli ≡ ok config
      → (audience_hash image_digest : Bytes)
      → is_digest_allowed config audience_hash image_digest ≡ true
        ↔ Allowed cli audience_hash image_digest
  unfolding from_env is_digest_allowed
  from_env-Allowed cli config h a d =
      let (audience, allowed, ea, ed, e) = from_env-applications cli config h in
      let one = one_application-Allowed audience allowed a d in
      let same : is_digest_allowed config a d ≡ allowed_in (one_application audience allowed) a d =
        ap (λ apps. allowed_in apps a d) e in
      (
        λ x. let (k, l) = one.0 (sym same ∙ x) in (audience, allowed, ea, ed, k, l),
        λ (audience', allowed', ea', ed', k', l').
            let s : audience ≡ audience' = cc in
            let t : allowed ≡ allowed' = cc in
            same
            ∙ one.1 (
              ap keccak256 s ∙ k',
              subst (λ x. NamesNone (parts_of x) ⊎ Names d (parts_of x)) (sym t) l',
            ),
      )
