-- ===== src/Bootstrap/Tests.antt =====
-- Bootstrap runs against a small world.
use synddb.Prelude.{
  ℕ, zero, suc, ◌≡◌, refl, Bool, true, false, none, some, [], ◌∷◌, Result, ok, err, leb,
  if◌then◌else◌,
}
use synddb.Shared.Bytes.{Bytes}
use synddb.Bootstrap.{
  BootstrapError, proof_generation_failed, BootstrapConfig, ready, stylus, sequencer, ProofResponse,
  Services, panicked, new, is_retryable, validate, with_retry, verify_with_retry, run,
}
use synddb.Bootstrap.Run.{run-Ends, Ends}

abbrev zeros : ℕ → Bytes
zeros zero = []
zeros (suc n) = 0 ∷ zeros n

abbrev proof : ProofResponse
proof = record { public_values = 1 ∷ []; proof_bytes = 2 ∷ [] }

-- The third attempt to prove succeeds, and the chain shows the key at the second look.
abbrev prove : ℕ → Result ProofResponse BootstrapError
prove n = if leb n 2 then err proof_generation_failed else ok proof

abbrev look : ℕ → Result Bool BootstrapError
look n = ok (leb 2 n)

abbrev world : Services
world = record {
  generate = 77;
  proof_client = ok tt;
  submitter = ok tt;
  parse_address = λ s. ok tt;
  relayer_client = ok tt;
  get_token = ok "token";
  decode = λ s. some (zeros 65);
  generate_proof = λ token image n. prove n;
  register_key = λ p kind n. ok tt;
  is_key_valid = λ kind key n. look n;
}

abbrev config : BootstrapConfig
config = record {
  enable_key_bootstrap = true;
  bridge_address = some "0x01";
  rpc_url = some "http://localhost:8545";
  chain_id = some 1;
  relayer_url = some "http://localhost:3000";
  prover_mode = stylus;
  proof_service_url = none;
  image_signature = some "0xab";
  proof_max_retries = 3;
  relayer_max_retries = 3;
  verification_max_retries = 5;
}

-- With bootstrap off the settings may be missing, and a run unwraps one.
off_panics :
    (run world
      (record config { enable_key_bootstrap = false; bridge_address = none })
      (new sequencer)).1
    ≡ panicked
unfolding run validate
off_panics = refl

completed : (run world config (new sequencer)).0.state ≡ ready
unfolding run validate with_retry is_retryable verify_with_retry
completed = refl

run-Ends_example : Ends world config (new sequencer) (run world config (new sequencer))
run-Ends_example = run-Ends world config (new sequencer) ((λ t. cc), (λ t. cc))
