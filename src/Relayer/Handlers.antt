-- ===== src/Relayer/Handlers.antt =====
-- crates/synddb-relayer/src/handlers.rs: registering a key. The answer says which registrations were
-- sent to the chain.
pub mod Admitting
pub mod Laws
pub mod Answers
use Prim.Native.String.{◌++◌ as text_append, len}
use synddb.Prelude.{
  ℕ, ◌+◌, ◌%◌, Bool, true, false, ◌||◌, String, Option, none, some, List, [], ◌∷◌, length, take,
  drop, ltb, leb, not, if◌then◌else◌, Result, ok, err, ◌>>=◌, ◌>>◌, u64_mod,
}
use synddb.Shared.Bytes.{Bytes}
use synddb.Bootstrap.{trim_0x}
use synddb.Validator.Error.{contains_text}
use synddb.Relayer.Config.{RelayerConfig, get_application, allows}
use synddb.Relayer.Submitter.{Chain, Registration, is_key_valid, wait_for_confirmation}

pub data KeyType : Type 0 where
  sequencer validator : KeyType

pub record RegisterKeyRequest : Type 0 where
  pub public_values : String
  pub proof_bytes : String
  pub deadline : ℕ
  pub signature : String
  pub key_type : KeyType

pub data StatusCode : Type 0 where
  status_ok bad_request forbidden internal_server_error : StatusCode

pub record RegisterKeyResponse : Type 0 where
  pub status : StatusCode
  pub registered_key : Option Bytes
  pub tx_hash : Option Bytes
  pub error : Option String

pub record AttestationFields : Type 0 where
  pub image_digest_hash : Bytes
  pub audience_hash : Bytes
  pub tee_signing_key : Bytes

abbrev slice : ℕ → ℕ → Bytes → Bytes
slice from size b = take size (drop from b)

unfoldable pub extract_attestation_fields : Bytes → Option AttestationFields
extract_attestation_fields public_values =
    if ltb (length public_values) 352
    then none
    else some (record {
      image_digest_hash = slice 96 32 public_values;
      tee_signing_key = slice 140 20 public_values;
      audience_hash = slice 224 32 public_values;
    })

abbrev pub failure : StatusCode → String → RegisterKeyResponse
failure code error = record {
  status = code;
  registered_key = none;
  tx_hash = none;
  error = some error;
}

abbrev pub success : Bytes → Option Bytes → RegisterKeyResponse
success key tx_hash = record {
  status = status_ok;
  registered_key = some key;
  tx_hash = tx_hash;
  error = none;
}

abbrev pub reject_if : Bool → StatusCode → String → Result (Unit {0}) RegisterKeyResponse
reject_if b code error = if b then err (failure code error) else ok tt

abbrev pub found : {A : Type 0} → Option A → StatusCode → String → Result A RegisterKeyResponse
found none code error = err (failure code error)
found (some a) code error = ok a

abbrev pub key_code : KeyType → ℕ
key_code sequencer = 0
key_code validator = 1

-- A request that passed the checks, and the key that it is for.
pub record Admission : Type 0 where
  pub registration : Registration
  pub key : Bytes

pub record Reply : Type 0 where
  pub sent : List Registration
  -- `none` while the wait for a confirmation goes on
  pub response : Option RegisterKeyResponse

abbrev pub is_race : String → Bool
is_race err_str = contains_text err_str "KeyAlreadyExists" || contains_text err_str "0x2dc09057"

abbrev pub confirmed :
    Bytes → Bytes → Option (Result (Unit {0}) String) → Option RegisterKeyResponse
confirmed key tx_hash none = none
confirmed key tx_hash (some (ok done)) = some (success key (some tx_hash))
confirmed key tx_hash (some (err e)) = some (record {
  status = internal_server_error;
  registered_key = none;
  tx_hash = some tx_hash;
  error = some (text_append "Registration tx failed: " e);
})

abbrev pub after_send : Chain → ℕ → Bytes → Result Bytes String → Option RegisterKeyResponse
after_send chain timeout key (ok tx_hash) =
    confirmed key tx_hash (wait_for_confirmation chain timeout tx_hash)
after_send chain timeout key (err e) = some (
    if is_race e
    then success key none
    else failure internal_server_error (text_append "Failed to submit registration: " e))

abbrev pub after_check : Chain → ℕ → Admission → Result Bool String → Reply
after_check chain timeout a (ok true) = record { sent = []; response = some (success a.key none) }
after_check chain timeout a (ok false) = record {
  sent = a.registration ∷ [];
  response = after_send chain timeout a.key (chain.send a.registration);
}
after_check chain timeout a (err e) = record {
  sent = [];
  response = some (failure internal_server_error (text_append "Failed to check key validity: " e));
}

abbrev pub submitted : Chain → ℕ → Result Admission RegisterKeyResponse → Reply
submitted chain timeout (err r) = record { sent = []; response = some r }
submitted chain timeout (ok a) =
    after_check chain timeout a (is_key_valid chain a.registration.key_type a.key)

module _ (decode : String → Result Bytes String) where
  abbrev pub hex_or : String → String → Result Bytes RegisterKeyResponse
  hex_or what text = elim (decode (trim_0x (len text) text)) [
    | ok raw ↦ ok raw
    | err e ↦ err (failure bad_request (text_append what e))
  ]

  unfoldable pub admitted :
      RelayerConfig → ℕ → RegisterKeyRequest → Result Admission RegisterKeyResponse
  unfolding extract_attestation_fields
  admitted config now request = do
    public_values ← hex_or "Invalid public_values hex: " request.public_values
    attestation ←
        found (extract_attestation_fields public_values) bad_request
          "Could not extract attestation fields from public_values"
    app ←
        found (get_application config attestation.audience_hash) forbidden
          "Unknown application: audience_hash not configured"
    reject_if (not (allows app attestation.image_digest_hash)) forbidden
        "Image digest not in allowlist for this application"
    reject_if (leb request.deadline now) bad_request "Deadline is in the past"
    reject_if (ltb ((now + 86_400) % u64_mod) request.deadline) bad_request
        "Deadline too far in the future (max 86400 seconds)"
    proof_bytes ← hex_or "Invalid proof_bytes hex: " request.proof_bytes
    signature ← hex_or "Invalid signature hex: " request.signature
    ok (record {
      registration = record {
        key_type = key_code request.key_type;
        public_values = public_values;
        proof_bytes = proof_bytes;
        deadline = request.deadline;
        signature = signature;
      };
      key = attestation.tee_signing_key;
    })

  unfoldable pub register_key : RelayerConfig → Chain → ℕ → RegisterKeyRequest → Reply
  unfolding admitted
  register_key config chain now request =
      submitted chain config.tx_confirmation_timeout (admitted config now request)
