-- ===== src/Attestation/Admin.antt =====
-- contracts/stylus/attestation-verifier/src/lib.rs: initialization and the operations of the owner. An operation that
-- fails reverts, and leaves the storage as it was.
pub mod Laws
use synddb.Prelude.{◌>>=◌, ◌>>◌, [], ℕ, not, true, false, ◌∷◌, ◌++◌, leb, ◌==◌, Result, ok}
use synddb.Attestation.State.{
  VerifierError, not_owner, already_initialized, zero_address, tolerance_exceeds_one_day,
  trusted_jwk_added, ownership_transferred, trusted_jwk_removed, allowed_image_digest_hash_added,
  allowed_image_digest_hash_removed, trusted_image_signer_added, trusted_image_signer_removed,
  StylusAttestationVerifier, Vm, require, put,
}

module _ (vm : Vm) (self : StylusAttestationVerifier) where
  open vm use {msg_sender}

  unfoldable pub only_owner : Result (Unit {0}) VerifierError
  only_owner = require (msg_sender == self.owner) (not_owner msg_sender)

  -- An operation that only the owner may call, as the state that it leaves.
  abbrev pub owned : StylusAttestationVerifier → Result StylusAttestationVerifier VerifierError
  owned next = do only_owner; ok next

  unfoldable pub initialize : ℕ → Result StylusAttestationVerifier VerifierError
  initialize expiration_tolerance = do
    require (not self.initialized) already_initialized
    require (leb expiration_tolerance 86400) tolerance_exceeds_one_day
    ok (record self {
      owner = msg_sender;
      expiration_tolerance = expiration_tolerance;
      initialized = true;
    })

  unfoldable pub add_trusted_jwk : ℕ → ℕ → Result StylusAttestationVerifier VerifierError
  unfolding only_owner
  add_trusted_jwk kid_hash key_material_hash = owned (record self {
    trusted_jwk_hashes = put self.trusted_jwk_hashes kid_hash true;
    jwk_key_material_hashes = put self.jwk_key_material_hashes kid_hash key_material_hash;
    logs = self.logs ++ trusted_jwk_added kid_hash key_material_hash ∷ [];
  })

  unfoldable pub remove_trusted_jwk : ℕ → Result StylusAttestationVerifier VerifierError
  unfolding only_owner
  remove_trusted_jwk kid_hash = owned (record self {
    trusted_jwk_hashes = put self.trusted_jwk_hashes kid_hash false;
    jwk_key_material_hashes = put self.jwk_key_material_hashes kid_hash 0;
    logs = self.logs ++ trusted_jwk_removed kid_hash ∷ [];
  })

  unfoldable pub add_allowed_image_digest_hash : ℕ → Result StylusAttestationVerifier VerifierError
  unfolding only_owner
  add_allowed_image_digest_hash digest_hash = owned (record self {
    allowed_image_digest_hashes = put self.allowed_image_digest_hashes digest_hash true;
    logs = self.logs ++ allowed_image_digest_hash_added digest_hash ∷ [];
  })

  unfoldable pub remove_allowed_image_digest_hash :
      ℕ → Result StylusAttestationVerifier VerifierError
  unfolding only_owner
  remove_allowed_image_digest_hash digest_hash = owned (record self {
    allowed_image_digest_hashes = put self.allowed_image_digest_hashes digest_hash false;
    logs = self.logs ++ allowed_image_digest_hash_removed digest_hash ∷ [];
  })

  unfoldable pub add_trusted_image_signer : ℕ → Result StylusAttestationVerifier VerifierError
  unfolding only_owner
  add_trusted_image_signer signer = owned (record self {
    trusted_image_signers = put self.trusted_image_signers signer true;
    logs = self.logs ++ trusted_image_signer_added signer ∷ [];
  })

  unfoldable pub remove_trusted_image_signer : ℕ → Result StylusAttestationVerifier VerifierError
  unfolding only_owner
  remove_trusted_image_signer signer = owned (record self {
    trusted_image_signers = put self.trusted_image_signers signer false;
    logs = self.logs ++ trusted_image_signer_removed signer ∷ [];
  })

  unfoldable pub transfer_ownership : ℕ → Result StylusAttestationVerifier VerifierError
  unfolding only_owner
  transfer_ownership new_owner = do
    only_owner
    require (not (new_owner == 0)) zero_address
    ok (record self {
      owner = new_owner;
      logs = self.logs ++ ownership_transferred self.owner new_owner ∷ [];
    })
