-- ===== src/Attestation/State.antt =====
-- contracts/stylus/attestation-verifier/src/lib.rs: the contract's storage, its errors and events, and what a call
-- reads. Words of 32 bytes and addresses are numbers; a storage map is a function, with the default
-- of an entry never written.
use synddb.Prelude.{
  ℕ, Bool, true, false, Option, none, some, List, ◌==◌, if◌then◌else◌, Result, ok, err, String,
}
use synddb.Shared.Bytes.{Bytes}
use synddb.Attestation.Jwt.{ParsedJwt}

pub record PublicValuesStruct : Type 0 where
  pub jwk_key_hash : ℕ
  pub validity_window_start : ℕ
  pub validity_window_end : ℕ
  pub image_digest_hash : ℕ
  pub tee_signing_key : ℕ
  pub secboot : Bool
  pub dbgstat_disabled : Bool
  pub audience_hash : ℕ
  pub image_signature_v : ℕ
  pub image_signature_r : ℕ
  pub image_signature_s : ℕ

pub record StylusProofData : Type 0 where
  pub jwt : Bytes
  pub jwk_modulus : Bytes
  pub jwk_exponent : Bytes

pub data VerifierError : Type 0 where
  not_owner : ℕ → VerifierError
  untrusted_jwk jwk_key_material_mismatch untrusted_image_digest untrusted_image_signer :
      ℕ → VerifierError
  validity_window_not_started validity_window_expired : ℕ → ℕ → VerifierError
  already_initialized invalid_jwt unsupported_algorithm rsa_verification_failed invalid_issuer :
      VerifierError
  claims_mismatch secure_boot_required debug_mode_not_allowed image_signature_invalid :
      VerifierError
  ecrecover_failed invalid_proof_data invalid_public_values precompile_failed zero_address :
      VerifierError
  tolerance_exceeds_one_day : VerifierError

pub data Event : Type 0 where
  trusted_jwk_added ownership_transferred : ℕ → ℕ → Event
  trusted_jwk_removed allowed_image_digest_hash_added allowed_image_digest_hash_removed : ℕ → Event
  trusted_image_signer_added trusted_image_signer_removed : ℕ → Event

pub record StylusAttestationVerifier : Type 0 where
  pub owner : ℕ
  pub initialized : Bool
  pub expiration_tolerance : ℕ
  pub trusted_jwk_hashes : ℕ → Bool
  pub jwk_key_material_hashes : ℕ → ℕ
  pub allowed_image_digest_hashes : ℕ → Bool
  pub trusted_image_signers : ℕ → Bool
  pub logs : List Event

-- What the SDK gives in a call: the caller, the block's time, the hash, the precompiles by their
-- address, and the ABI decoder.
pub record Vm : Type 0 where
  pub msg_sender : ℕ
  pub block_timestamp : ℕ
  pub native_keccak256 : Bytes → ℕ
  pub static_call : ℕ → Bytes → Option Bytes
  pub decode_values : Bytes → Option PublicValuesStruct
  pub decode_proof : Bytes → Option StylusProofData

abbrev pub require : Bool → VerifierError → Result (Unit {0}) VerifierError
require true e = ok tt
require false e = err e

abbrev pub ok_or : {A : Type 0} → Option A → VerifierError → Result A VerifierError
ok_or none e = err e
ok_or (some a) e = ok a

abbrev pub or_invalid_jwt : Result ParsedJwt String → Result ParsedJwt VerifierError
or_invalid_jwt (ok jwt) = ok jwt
or_invalid_jwt (err e) = err invalid_jwt

abbrev pub put {ℓ} : {A : Type ℓ} → (ℕ → A) → ℕ → A → ℕ → A
put entries key value k = if k == key then value else entries k
