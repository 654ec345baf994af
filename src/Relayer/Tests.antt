-- ===== src/Relayer/Tests.antt =====
-- The relayer at concrete requests.
use synddb.Prelude.{
  inl, inr, ℕ, zero, suc, ◌+◌, str_eq, if◌then◌else◌, ◌==◌, ◌≤◌, ◌≡◌, refl, true, false, String,
  none, some, List, [], ◌∷◌, Result, ok, err, arith, inl,
}
use Prim.Native.String.{len}
use synddb.Shared.Bytes.{Bytes}
use synddb.Shared.Decimal.{parse}
use synddb.Relayer.Text.{trim_start, trim_end, split}
use synddb.Relayer.Config.{CliConfig, RelayerConfig, from_env, is_digest_allowed, parse_b256}
use synddb.Relayer.Config.Laws.{from_env-Allowed}
use synddb.Relayer.Submitter.{wait_from, Chain, Registration}
use synddb.Relayer.Handlers.{RegisterKeyRequest, sequencer, RegisterKeyResponse, register_key}
use synddb.Relayer.Handlers.Laws.{register_key-Sends}
use synddb.Relayer.Handlers.Answers.{register_key-Answers}
use synddb.Relayer.Withdrawal.{
  accepted, Services, WithdrawalSubmitter, WithdrawalSubmissionRequest, handle,
}
use synddb.Relayer.Withdrawal.Laws.{Handled, handle-Handled}

-- A stand-in for hexadecimal: any 64 characters are a key, "v" the public values.
abbrev bytes_of : ℕ → ℕ → Bytes
bytes_of zero b = []
bytes_of (suc n) b = b ∷ bytes_of n b

abbrev key_text : String
key_text = "1111111111111111111111111111111111111111111111111111111111111111"

abbrev decode : String → Result Bytes String
decode s =
    if len s == 64
    then ok (bytes_of 32 7)
    else if str_eq s "v"
    then ok (bytes_of 352 7)
    else err "not hexadecimal"

abbrev keccak256 : String → Bytes
keccak256 s = bytes_of 32 7

abbrev cli : String → CliConfig
cli allowed = record {
  rpc_url = some "http://localhost:8545";
  chain_id = some 1;
  bridge_address = some "0xb";
  private_key = some key_text;
  listen_addr = "0.0.0.0:8082";
  tx_confirmation_timeout_secs = 120;
  required_audience = some "https://app";
  allowed_image_digests = some allowed;
  validator_url = none;
}

abbrev config : List Bytes → RelayerConfig
config digests = record {
  rpc_url = "http://localhost:8545";
  chain_id = 1;
  bridge_address = "0xb";
  private_key = key_text;
  listen_addr = "0.0.0.0:8082";
  tx_confirmation_timeout = 120;
  validator_url = none;
  applications =
      (bytes_of 32 7, record { audience = "https://app"; allowed_image_digests = digests }) ∷ [];
}

-- A list that cannot be read is an empty list.
unreadable : from_env decode keccak256 (cli "0xab, 0xcd") ≡ ok (config [])
unfolding from_env trim_start trim_end split
unreadable = refl

-- It allows an image that it does not name.
from_env-Allowed_example : is_digest_allowed (config []) (bytes_of 32 7) (bytes_of 32 9) ≡ true
unfolding parse_b256 trim_start trim_end split
from_env-Allowed_example =
    (from_env-Allowed decode keccak256 (cli "0xab, 0xcd") (config []) unreadable (bytes_of 32 7)
        (bytes_of 32 9)).1
      ("https://app", "0xab, 0xcd", refl, refl, refl, inl (refl, (refl, tt)))

-- The third poll has the receipt.
abbrev chain : Chain
chain = record {
  call_is_key_valid = λ t k. err "execution reverted: 0xffc44e88";
  send = λ r. ok (5 ∷ []);
  elapsed = λ poll. poll + poll;
  receipt = λ h poll. if poll == 2 then ok (some true) else ok none;
}

time_passes : (poll : ℕ) → poll ≤ poll + poll
time_passes poll = omega arith

abbrev request : RegisterKeyRequest
request = record {
  public_values = "0xv";
  proof_bytes = key_text;
  deadline = 1_700_000_600;
  signature = key_text;
  key_type = sequencer;
}

abbrev registration : Registration
registration = record {
  key_type = 0;
  public_values = bytes_of 352 7;
  proof_bytes = bytes_of 32 7;
  deadline = 1_700_000_600;
  signature = bytes_of 32 7;
}

register_key-Sends_example :
    (register_key decode (config (bytes_of 32 7 ∷ [])) chain 1_700_000_000 request).sent
    ≡ registration ∷ []
register_key-Sends_example =
    (register_key-Sends decode (config (bytes_of 32 7 ∷ [])) chain 1_700_000_000 request
        registration (omega arith)).1
      (
        (
          refl,
          refl,
          refl,
          omega arith,
          (_, ([], [], refl, tt), inr (inl refl)),
          omega arith,
          omega arith,
          refl,
          refl,
        ),
        ("execution reverted: 0xffc44e88", refl, inr refl),
      )

register_key-Answers_example :
    (response : RegisterKeyResponse) × ((register_key decode
        (config (bytes_of 32 7 ∷ []))
        chain
        1_700_000_000
        request).response
      ≡ some response)
register_key-Answers_example = (
  (register_key-Answers decode chain time_passes (config (bytes_of 32 7 ∷ [])) 1_700_000_000 request
      (omega arith)).0,
  (register_key-Answers decode chain time_passes (config (bytes_of 32 7 ∷ [])) 1_700_000_000 request
      (omega arith)).1,
)

abbrev withdrawal : WithdrawalSubmissionRequest
withdrawal = record {
  message_id = key_text;
  target_address = "0xdead";
  payload = "v";
  native_token_amount = "1000";
  sequencer_signature = "0xv";
  sequence = 4;
  timestamp = 1_700_000_000;
}

-- A chain on which the transaction reverts.
abbrev services : Services
services = record {
  decode = decode;
  parse_address = λ s. ok (bytes_of 20 3);
  get = λ url. err "connection refused";
  send = λ m. ok (5 ∷ []);
  chain = record chain { receipt = λ h poll. ok (some false) };
}

abbrev self : WithdrawalSubmitter
self = record { rpc_url = ok tt; validator_url = some "http://v/"; tx_confirmation_timeout = 120 }

-- It is answered as accepted, with no error status.
reverted_accepted : (handle services (some self) withdrawal).1 ≡ some accepted
unfolding handle parse wait_from
reverted_accepted = refl

handle-Handled_example : Handled services self withdrawal (handle services (some self) withdrawal)
handle-Handled_example = handle-Handled services self withdrawal time_passes
