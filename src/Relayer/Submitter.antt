-- ===== src/Relayer/Submitter.antt =====
-- crates/synddb-relayer/src/submitter.rs: calls of the contracts. What the chain answers is in an
-- environment; addresses, hashes and the arguments of a call are kept as bytes.
pub mod Laws
use synddb.Prelude.{
  ℕ, zero, suc, ◌+◌, Bool, true, false, ◌||◌, String, Option, none, some, ltb, if◌then◌else◌,
  Result, ok, err,
}
use synddb.Shared.Bytes.{Bytes}
use synddb.Validator.Error.{contains_text}

-- `registerKeyWithSignature`
pub record Registration : Type 0 where
  pub key_type : ℕ
  pub public_values : Bytes
  pub proof_bytes : Bytes
  pub deadline : ℕ
  pub signature : Bytes

-- The polls of one wait are numbered from 0: the seconds since its start, and the receipt's status.
pub record Chain : Type 0 where
  pub call_is_key_valid : ℕ → Bytes → Result Bool String
  pub send : Registration → Result Bytes String
  pub elapsed : ℕ → ℕ
  pub receipt : Bytes → ℕ → Result (Option Bool) String

abbrev pub is_invalid_public_key_error : String → Bool
is_invalid_public_key_error err_str =
    contains_text err_str "InvalidPublicKey" || contains_text err_str "0xffc44e88"

-- The Boolean answer is not looked at: the contract reverts for a key that is not valid.
abbrev pub is_key_valid : Chain → ℕ → Bytes → Result Bool String
is_key_valid chain key_type address = elim (chain.call_is_key_valid key_type address) [
  | ok valid ↦ ok true
  | err e ↦ if is_invalid_public_key_error e then ok false else err e
]

abbrev pub on_receipt :
    Result (Option Bool) String
    → Option (Result (Unit {0}) String)
    → Option (Result (Unit {0}) String)
on_receipt (ok (some true)) rest = some (ok tt)
on_receipt (ok (some false)) rest = some (err "Transaction reverted: ")
on_receipt (ok none) rest = rest
on_receipt (err e) rest = rest

-- The loop from a poll on; `none` where it still waits after `fuel` polls.
unfoldable pub wait_from : Chain → ℕ → Bytes → ℕ → ℕ → Option (Result (Unit {0}) String)
wait_from chain timeout tx_hash zero poll = none
wait_from chain timeout tx_hash (suc fuel) poll =
    let rest = wait_from chain timeout tx_hash fuel (poll + 1) in
    if ltb timeout (chain.elapsed poll)
    then some (err "Timeout waiting for tx confirmation after ")
    else on_receipt (chain.receipt tx_hash poll) rest

-- Each poll sleeps, so there are at most as many as the seconds of the timeout, and one more.
abbrev pub wait_for_confirmation : Chain → ℕ → Bytes → Option (Result (Unit {0}) String)
wait_for_confirmation chain timeout tx_hash = wait_from chain timeout tx_hash (timeout + 2) 0
