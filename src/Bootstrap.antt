-- ===== src/Bootstrap.antt =====
-- crates/synddb-bootstrap/src: the state machine that registers a signing key (state_machine.rs), its
-- configuration (config.rs) and its errors (error.rs). The prover, the relayer, the chain and the
-- attestation service are parameters; the texts of the errors and the sleeps are not modelled.
pub mod Retry
pub mod Run
pub mod Tests
use text.Mathlib.Text.{starts_with}
use Prim.Native.String.{len, slice}
use synddb.Prelude.{
  ℕ, zero, suc, ◌+◌, Bool, true, false, String, Option, none, some, ◌==◌, length, if◌then◌else◌,
  Result, ok, err, ◌>>=◌, ◌>>◌,
}
use synddb.Shared.Bytes.{Bytes}

pub data BootstrapError : Type 0 where
  attestation_socket_missing attestation_fetch_failed jwks_fetch_failed : BootstrapError
  proof_generation_failed proof_generation_permanent proof_service_unavailable : BootstrapError
  proof_generation_timeout contract_submission_failed transaction_failed : BootstrapError
  transaction_confirmation_failed key_verification_failed config_error timeout : BootstrapError
  -- the operation
  max_retries_exceeded : String → BootstrapError

unfoldable pub is_retryable : BootstrapError → Bool
is_retryable attestation_fetch_failed = true
is_retryable jwks_fetch_failed = true
is_retryable proof_generation_failed = true
is_retryable proof_service_unavailable = true
is_retryable proof_generation_timeout = true
is_retryable contract_submission_failed = true
is_retryable transaction_failed = true
is_retryable transaction_confirmation_failed = true
is_retryable _ = false

pub data ProverMode : Type 0 where
  service mock stylus : ProverMode

pub record BootstrapConfig : Type 0 where
  pub enable_key_bootstrap : Bool
  pub bridge_address : Option String
  pub rpc_url : Option String
  pub chain_id : Option ℕ
  pub relayer_url : Option String
  pub prover_mode : ProverMode
  pub proof_service_url : Option String
  pub image_signature : Option String
  pub proof_max_retries : ℕ
  pub relayer_max_retries : ℕ
  pub verification_max_retries : ℕ

abbrev pub required {ℓ} : {A : Type ℓ} → Option A → Result (Unit {0}) BootstrapError
required none = err config_error
required (some a) = ok tt

abbrev pub required_for : ProverMode → Option String → Result (Unit {0}) BootstrapError
required_for service url = required url
required_for mock url = ok tt
required_for stylus url = ok tt

unfoldable pub validate : BootstrapConfig → Result (Unit {0}) BootstrapError
validate c =
    if c.enable_key_bootstrap
    then (required c.bridge_address
        >> (required c.rpc_url
            >> (required c.chain_id
                >> (required c.relayer_url
                    >> (required_for c.prover_mode c.proof_service_url
                        >> required c.image_signature)))))
    else ok tt

pub data BootstrapState : Type 0 where
  not_started generating_key fetching_attestation generating_proof : BootstrapState
  registering_key verifying_registration ready failed : BootstrapState

pub data KeyType : Type 0 where
  sequencer validator : KeyType

pub record ProofResponse : Type 0 where
  pub public_values : Bytes
  pub proof_bytes : Bytes

-- A key is known by its address.
pub record BootstrapStateMachine : Type 0 where
  pub state : BootstrapState
  pub key_manager : Option ℕ
  pub attestation_token : Option String
  pub proof : Option ProofResponse
  pub last_error : Option BootstrapError
  pub key_type : KeyType

abbrev pub new : KeyType → BootstrapStateMachine
new key_type = record {
  state = not_started;
  key_manager = none;
  attestation_token = none;
  proof = none;
  last_error = none;
  key_type = key_type;
}

-- What the world answers: the generated key, whether each client can be created, the token, and the
-- answer to each attempt, counted from 1.
pub record Services : Type 0 where
  pub generate : ℕ
  pub proof_client : Result (Unit {0}) BootstrapError
  pub submitter : Result (Unit {0}) BootstrapError
  pub parse_address : String → Result (Unit {0}) BootstrapError
  pub relayer_client : Result (Unit {0}) BootstrapError
  pub get_token : Result String BootstrapError
  pub decode : String → Option Bytes
  pub generate_proof : String → Bytes → ℕ → Result ProofResponse BootstrapError
  pub register_key : ProofResponse → KeyType → ℕ → Result (Unit {0}) BootstrapError
  pub is_key_valid : KeyType → ℕ → ℕ → Result Bool BootstrapError

-- How a run ends.
pub data Exit : Type 0 where
  registered : ℕ → Exit
  error : BootstrapError → Exit
  -- an `unwrap` of a missing setting
  panicked : Exit

-- A call that may panic.
abbrev pub unwrapped :
    {A : Type 0}
    → Option A
    → (A → BootstrapStateMachine × Exit)
    → BootstrapStateMachine
    → BootstrapStateMachine × Exit
unwrapped none next m = (m, panicked)
unwrapped (some a) next m = next a

-- `?` in `run`: an error leaves the machine as it is.
abbrev pub checked :
    {A : Type 0}
    → Result A BootstrapError
    → (A → BootstrapStateMachine × Exit)
    → BootstrapStateMachine
    → BootstrapStateMachine × Exit
checked (ok a) next m = next a
checked (err e) next m = (m, error e)

-- The loops of `generate_proof_with_retry` and `register_with_retry`, over the attempts left.
unfoldable pub with_retry :
    {A : Type 0} → String → (ℕ → Result A BootstrapError) → ℕ → ℕ → Result A BootstrapError
unfolding is_retryable
with_retry operation f attempt zero = err (max_retries_exceeded operation)
with_retry operation f attempt (suc left) = elim (f attempt) [
  | ok a ↦ ok a
  | err e ↦
      let rest = with_retry operation f (attempt + 1) left in if is_retryable e then rest else err e
]

-- The loop of `verify_registration_with_retry`.
unfoldable pub verify_with_retry :
    (ℕ → Result Bool BootstrapError) → ℕ → ℕ → Result (Unit {0}) BootstrapError
verify_with_retry f attempt zero = err key_verification_failed
verify_with_retry f attempt (suc left) = elim (f attempt) [
  | ok true ↦ ok tt
  | ok false ↦ verify_with_retry f (attempt + 1) left
  | err e ↦ err e
]

-- `parse_hex_bytes`: every "0x" in front goes. A text has at most half as many as bytes.
abbrev pub trim_0x : ℕ → String → String
trim_0x zero s = s
trim_0x (suc fuel) s =
    let rest = trim_0x fuel (slice s 2 (len s)) in if starts_with s "0x" then rest else s

abbrev pub parse_image_signature : Services → String → Result Bytes BootstrapError
parse_image_signature w s = elim (w.decode (trim_0x (len s) s)) [
  | none ↦ err config_error
  | some raw ↦ if length raw == 65 then ok raw else err config_error
]

abbrev pub registration :
    Services
    → BootstrapConfig
    → BootstrapStateMachine
    → ProofResponse
    → BootstrapStateMachine × Exit
registration w c m proof =
    let m1 = record m { proof = some proof; state = registering_key } in
    checked
      (with_retry "key_registration" (w.register_key proof m.key_type) 1 c.relayer_max_retries)
      (λ _.
        let m2 = record m1 { state = verifying_registration } in
        checked
          (verify_with_retry (w.is_key_valid m.key_type w.generate) 1 c.verification_max_retries)
          (λ _. (record m2 { state = ready }, registered w.generate)) m2)
      m1

abbrev pub attested :
    Services → BootstrapConfig → BootstrapStateMachine → String → BootstrapStateMachine × Exit
attested w c m token =
    let m1 = record m { attestation_token = some token } in
    unwrapped c.image_signature
      (λ text.
        checked (parse_image_signature w text)
          (λ image_signature.
            let m2 = record m1 { state = generating_proof } in
            checked
              (with_retry "proof_generation" (w.generate_proof token image_signature) 1
                c.proof_max_retries)
              (registration w c m2) m2)
          m1)
      m1

abbrev pub connected :
    Services → BootstrapConfig → BootstrapStateMachine → BootstrapStateMachine × Exit
connected w c m =
    checked w.proof_client
      (λ _.
        checked w.submitter
          (λ _.
            unwrapped c.bridge_address
              (λ address.
                checked (w.parse_address address)
                  (λ _.
                    unwrapped c.rpc_url
                      (λ _.
                        unwrapped c.relayer_url
                          (λ _.
                            unwrapped c.chain_id
                              (λ _.
                                checked w.relayer_client
                                  (λ _.
                                    let m1 = record m { state = fetching_attestation } in
                                    checked w.get_token (attested w c m1) m1)
                                  m)
                              m)
                          m)
                      m)
                  m)
              m)
          m)
      m

unfoldable pub run :
    Services → BootstrapConfig → BootstrapStateMachine → BootstrapStateMachine × Exit
unfolding validate with_retry verify_with_retry
run w c m =
    checked (validate c)
      (λ _. connected w c (record m { state = generating_key; key_manager = some w.generate })) m
