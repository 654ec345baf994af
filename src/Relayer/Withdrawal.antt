-- ===== src/Relayer/Withdrawal.antt =====
-- crates/synddb-relayer/src/withdrawal.rs, and its endpoint in handlers.rs: submitting a withdrawal to
-- the Bridge. hex, the address parser, the HTTP client and the chain are parameters.
pub mod Laws
use Prim.Native.Char.{code}
use Prim.Native.String.{◌++◌ as text_append}
use synddb.Prelude.{
  ℕ, Bool, ◌&&◌, ◌==◌, String, Option, none, some, List, [], ◌∷◌, length, if◌then◌else◌, Result, ok,
  err, ◌>>=◌, ◌>>◌,
}
use synddb.Shared.Bytes.{Bytes, ascii}
use synddb.Shared.Decimal.{parse}
use synddb.Shared.Message.{strip_0x}
use synddb.Relayer.Text.{is_empty}
use synddb.Relayer.Submitter.{Chain, wait_for_confirmation}

pub record WithdrawalSubmissionRequest : Type 0 where
  pub message_id : String
  pub target_address : String
  pub payload : String
  pub native_token_amount : String
  pub sequencer_signature : String
  pub sequence : ℕ
  pub timestamp : ℕ

pub data Status : Type 0 where
  confirmed submitted failed : Status

pub record WithdrawalSubmissionResponse : Type 0 where
  pub tx_hash : Option Bytes
  pub error : Option String
  pub status : Status

-- The arguments of `initializeAndHandleMessage`.
pub record Message : Type 0 where
  pub message_id : Bytes
  pub target_address : Bytes
  pub payload : Bytes
  pub sequencer_signature : Bytes
  pub sequence : ℕ
  pub timestamp : ℕ
  pub validator_signatures : List Bytes
  pub native_token_amount : ℕ

-- An answer of the validator, its body read as a `ValidatorSignature`.
pub record HttpResponse : Type 0 where
  pub is_success : Bool
  pub signature : Result String String

pub record Services : Type 0 where
  pub decode : String → Result Bytes String
  pub parse_address : String → Result Bytes String
  pub get : String → Result HttpResponse String
  pub send : Message → Result Bytes String
  pub chain : Chain

pub record WithdrawalSubmitter : Type 0 where
  -- `Url::parse(&self.rpc_url)`
  pub rpc_url : Result (Unit {0}) String
  pub validator_url : Option String
  pub tx_confirmation_timeout : ℕ

abbrev pub u128_mod : ℕ
u128_mod = 340_282_366_920_938_463_463_374_607_431_768_211_456

-- `trim_end_matches('/')`
unfoldable pub trim_slashes : String → String
trim_slashes String.[] = String.[]
trim_slashes (String.◌∷◌ c s) =
    let rest = trim_slashes s in
    if is_empty rest && code c == 47 then String.[] else String.◌∷◌ c rest

abbrev pub amount : Option ℕ → Result ℕ String
amount none = err "invalid amount"
amount (some n) = ok n

-- What a submission sent, and its answer; `none` while it waits for a confirmation.
pub record Submission : Type 0 where
  pub sent : List Message
  pub answer : Option (Result WithdrawalSubmissionResponse String)

pub data HttpStatus : Type 0 where
  status_ok accepted internal_server_error service_unavailable : HttpStatus

module _ (w : Services) where
  abbrev pub body_of : HttpResponse → Result Bytes String
  body_of response = do
    if response.is_success then ok tt else err "Validator returned status "
    signature ← response.signature
    w.decode (strip_0x signature)

  unfoldable pub fetch_validator_signature : String → String → Result Bytes String
  unfolding trim_slashes
  fetch_validator_signature validator_url message_id =
      w.get (text_append (trim_slashes validator_url) (text_append "/signature/" message_id))
      >>= body_of

  abbrev pub one_or_none : Result Bytes String → List Bytes
  one_or_none (ok sig) = sig ∷ []
  one_or_none (err e) = []

  -- A signature that cannot be fetched is left out.
  unfoldable pub validator_signatures : Option String → String → List Bytes
  unfolding fetch_validator_signature
  validator_signatures none message_id = []
  validator_signatures (some url) message_id =
      one_or_none (fetch_validator_signature url message_id)

  unfoldable pub parsed : WithdrawalSubmitter → WithdrawalSubmissionRequest → Result Message String
  unfolding validator_signatures parse
  parsed self request = do
    message_id ← w.decode (strip_0x request.message_id)
    if length message_id == 32 then ok tt else err "Invalid message_id length: expected 32 bytes"
    target_address ← w.parse_address request.target_address
    payload ← w.decode (strip_0x request.payload)
    native_token_amount ← amount (parse u128_mod (ascii request.native_token_amount))
    seq_sig_bytes ← w.decode (strip_0x request.sequencer_signature)
    self.rpc_url
    ok (record {
      message_id = message_id;
      target_address = target_address;
      payload = payload;
      sequencer_signature = seq_sig_bytes;
      sequence = request.sequence;
      timestamp = request.timestamp;
      validator_signatures = validator_signatures self.validator_url request.message_id;
      native_token_amount = native_token_amount;
    })

  abbrev pub waited :
      Bytes
      → Option (Result (Unit {0}) String)
      → Option (Result WithdrawalSubmissionResponse String)
  waited tx_hash none = none
  waited tx_hash (some (ok done)) =
      some (ok (record { tx_hash = some tx_hash; error = none; status = confirmed }))
  waited tx_hash (some (err e)) =
      some (ok (record { tx_hash = some tx_hash; error = some e; status = submitted }))

  abbrev pub on_send : ℕ → Result Bytes String → Option (Result WithdrawalSubmissionResponse String)
  on_send timeout (ok tx_hash) = waited tx_hash (wait_for_confirmation w.chain timeout tx_hash)
  on_send timeout (err e) = some (ok (record { tx_hash = none; error = some e; status = failed }))

  abbrev pub sending : WithdrawalSubmitter → Result Message String → Submission
  sending self (err e) = record { sent = []; answer = some (err e) }
  sending self (ok m) = record {
    sent = m ∷ [];
    answer = on_send self.tx_confirmation_timeout (w.send m);
  }

  unfoldable pub submit_withdrawal : WithdrawalSubmitter → WithdrawalSubmissionRequest → Submission
  unfolding parsed
  submit_withdrawal self request = sending self (parsed self request)

  abbrev pub code_of : Result WithdrawalSubmissionResponse String → HttpStatus
  code_of (err e) = internal_server_error
  code_of (ok response) = elim response.status [
    | confirmed ↦ status_ok
    | submitted ↦ accepted
    | failed ↦ internal_server_error
  ]

  abbrev pub code_after : Option (Result WithdrawalSubmissionResponse String) → Option HttpStatus
  code_after none = none
  code_after (some answer) = some (code_of answer)

  -- The endpoint: what it sent, and its status.
  unfoldable pub handle :
      Option WithdrawalSubmitter → WithdrawalSubmissionRequest → List Message × Option HttpStatus
  unfolding submit_withdrawal
  handle none request = ([], some service_unavailable)
  handle (some self) request =
      let s = submit_withdrawal self request in (s.sent, code_after s.answer)
