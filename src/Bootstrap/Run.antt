-- ===== src/Bootstrap/Run.antt =====
-- How a bootstrap run ends.
use synddb.Prelude.{
  ℕ, ◌≤◌, ◌≡◌, ◌≢◌, refl, subst, true, false, String, Option, none, some, length, Result, ok, err,
  Bool-cases, ◌⊎◌, inl, inr, arith,
}
use synddb.Shared.Bytes.{Bytes}
use synddb.Bootstrap.{
  BootstrapError, BootstrapConfig, BootstrapState, BootstrapStateMachine, Services, Exit,
  ProofResponse, registered, error, panicked, generating_key, fetching_attestation,
  generating_proof, registering_key, verifying_registration, ready, failed, validate, unwrapped,
  checked, with_retry, verify_with_retry, parse_image_signature, run,
}
use synddb.Bootstrap.Retry.{with_retry-Tried, Tried, verify_with_retry-ok}

-- An attempt within a number of retries.
abbrev pub Within : ℕ → ℕ → Type 0
Within n retries = (1 ≤ n) × (n ≤ retries)

-- The run is not over.
abbrev pub InProgress : BootstrapState → Type 0
InProgress s = (s ≢ ready) × (s ≢ failed)

module _ (w : Services) (c : BootstrapConfig) where
  -- The key was proved, registered and found on the chain, each within its retries.
  abbrev pub Completes : BootstrapStateMachine → BootstrapStateMachine → ℕ → Type 0
  Completes m m' key =
      (key ≡ w.generate)
      × (m'.state ≡ ready)
      × (m'.key_manager ≡ some key)
      × ((token : String) × (image_signature : Bytes) × (proof : ProofResponse) × (w.get_token
            ≡ ok token)
          × (length image_signature ≡ 65)
          × (m'.proof ≡ some proof)
          × ((n : ℕ) × Within n c.proof_max_retries
              × (w.generate_proof token image_signature n ≡ ok proof))
          × ((n : ℕ) × Within n c.relayer_max_retries × (w.register_key proof m.key_type n ≡ ok tt))
          × ((n : ℕ) × Within n c.verification_max_retries
              × (w.is_key_valid m.key_type key n ≡ ok true)))

  abbrev pub Ends : BootstrapStateMachine → BootstrapStateMachine × Exit → Type 0
  Ends m (m', registered key) = Completes m m' key
  Ends m (m', error e) = InProgress m'.state × (m'.last_error ≡ m.last_error)
  Ends m (m', panicked) = InProgress m'.state × (c.enable_key_bootstrap ≡ false)

  checked-Ends :
      {A : Type 0} (r : Result A BootstrapError) (next : A → BootstrapStateMachine × Exit)
      (m m' : BootstrapStateMachine)
      → InProgress m'.state
      → m'.last_error ≡ m.last_error
      → ((a : A) → r ≡ ok a → Ends m (next a))
      → Ends m (checked r next m')
  checked-Ends (ok a) next m m' p l h = h a refl
  checked-Ends (err e) next m m' p l h = (p, l)

  unwrapped-Ends :
      {A : Type 0} (o : Option A) (next : A → BootstrapStateMachine × Exit)
      (m m' : BootstrapStateMachine)
      → InProgress m'.state
      → (o ≡ none → c.enable_key_bootstrap ≡ false)
      → ((a : A) → o ≡ some a → Ends m (next a))
      → Ends m (unwrapped o next m')
  unwrapped-Ends none next m m' p d h = (p, d refl)
  unwrapped-Ends (some a) next m m' p d h = h a refl

  tried-ok :
      {A : Type 0} (operation : String) (f : ℕ → Result A BootstrapError) (retries : ℕ) (a : A)
      → with_retry operation f 1 retries ≡ ok a
      → (n : ℕ) × Within n retries × (f n ≡ ok a)
  tried-ok operation f retries a e =
      let (n, lo, hi, g, _) =
        subst (Tried f operation 1 retries) e (with_retry-Tried f operation 1 retries) in
      (n, (lo, omega arith), g)

  image_signature_length :
      (text : String) (raw : Bytes) → parse_image_signature w text ≡ ok raw → length raw ≡ 65
  image_signature_length text raw h = ground arith

  -- A validated configuration that lacks a setting is one with bootstrap off.
  off_unless_set :
      validate c ≡ ok tt
      → (c.bridge_address ≡ none)
        ⊎ (c.rpc_url ≡ none)
        ⊎ (c.chain_id ≡ none)
        ⊎ (c.relayer_url ≡ none)
        ⊎ (c.image_signature ≡ none)
      → c.enable_key_bootstrap ≡ false
  unfolding validate
  off_unless_set v missing = elim (Bool-cases c.enable_key_bootstrap) [
    | inr off ↦ off
    | inl on ↦ absurd (ground arith)
  ]

  -- A run that started in progress ends registered only if the token was fetched, the key was proved,
  -- registered and found valid on the chain, each within its retries, and then the machine is ready
  -- with the key and the proof. With an error the machine stays in the phase it was in: it is neither
  -- ready nor failed, and its last error is not set. A run panics only if bootstrap is not enabled.
  pub run-Ends : (m : BootstrapStateMachine) → InProgress m.state → Ends m (run w c m)
  unfolding run
  run-Ends m p = checked-Ends (validate c) _ m m p refl λ valid v.
      let m1 = record m { state = generating_key; key_manager = some w.generate } in
      let p1 : InProgress m1.state = (λ t. cc, λ t. cc) in
      checked-Ends w.proof_client _ m m1 p1 refl λ _ _.
        checked-Ends w.submitter _ m m1 p1 refl λ _ _.
          unwrapped-Ends c.bridge_address _ m m1 p1 (λ e. off_unless_set v (inl e))
            λ address _. checked-Ends (w.parse_address address) _ m m1 p1 refl λ _ _.
              unwrapped-Ends c.rpc_url _ m m1 p1 (λ e. off_unless_set v (inr (inl e)))
                λ _ _.
                  unwrapped-Ends c.relayer_url _ m m1 p1
                    (λ e. off_unless_set v (inr (inr (inr (inl e)))))
                    λ _ _.
                      unwrapped-Ends c.chain_id _ m m1 p1
                        (λ e. off_unless_set v (inr (inr (inl e))))
                        λ _ _. checked-Ends w.relayer_client _ m m1 p1 refl λ _ _.
                          let m2 = record m1 { state = fetching_attestation } in
                          checked-Ends w.get_token _ m m2 (λ t. cc, λ t. cc) refl
                            λ token tokened.
                              let m3 = record m2 { attestation_token = some token } in
                              unwrapped-Ends c.image_signature _ m m3 (λ t. cc, λ t. cc)
                                (λ e. off_unless_set v (inr (inr (inr (inr e)))))
                                λ text _.
                                  checked-Ends (parse_image_signature w text) _ m m3
                                    (λ t. cc, λ t. cc) refl
                                    λ image parsed.
                                      let m4 = record m3 { state = generating_proof } in
                                      checked-Ends
                                        (with_retry "proof_generation"
                                          (w.generate_proof token image) 1 c.proof_max_retries)
                                        _ m m4 (λ t. cc, λ t. cc) refl
                                        λ proof proved.
                                          let m5 = record m4 {
                                            proof = some proof;
                                            state = registering_key;
                                          } in
                                          checked-Ends
                                            (with_retry "key_registration"
                                              (w.register_key proof m.key_type) 1
                                              c.relayer_max_retries)
                                            _ m m5 (λ t. cc, λ t. cc) refl
                                            λ _ done.
                                              let m6 = record m5 {
                                                state = verifying_registration;
                                              } in
                                              checked-Ends
                                                (verify_with_retry
                                                  (w.is_key_valid m.key_type w.generate) 1
                                                  c.verification_max_retries)
                                                _ m m6 (λ t. cc, λ t. cc) refl
                                                λ _ found.
                                                  let (n, lo, hi, valid_at) =
                                                    verify_with_retry-ok
                                                      (w.is_key_valid m.key_type w.generate) 1
                                                      c.verification_max_retries found in
                                                  (
                                                    refl,
                                                    refl,
                                                    refl,
                                                    (
                                                      token,
                                                      image,
                                                      proof,
                                                      tokened,
                                                      image_signature_length text image parsed,
                                                      refl,
                                                      tried-ok "proof_generation"
                                                          (w.generate_proof token image)
                                                          c.proof_max_retries proof proved,
                                                      tried-ok "key_registration"
                                                          (w.register_key proof m.key_type)
                                                          c.relayer_max_retries tt done,
                                                      (n, (lo, omega arith), valid_at),
                                                    ),
                                                  )
