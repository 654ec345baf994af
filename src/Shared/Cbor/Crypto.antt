-- ===== src/Shared/Cbor/Crypto.antt =====
-- crates/synddb-shared/src/types/cbor/verify.rs over the primitives of k256, sha2 and sha3, which
-- are parameters. A key and a signature stand for their canonical 64 bytes.
use synddb.Prelude.{Bool, Result, ok, err, ◌∷◌, if◌then◌else◌}
use synddb.Shared.Bytes.{Bytes}
use synddb.Shared.Cbor.Error.{CborError, signature_verification}

pub record Crypto : Type 0 where
  -- `VerifyingKey::from_sec1_bytes` accepts the 65 bytes
  pub is_key : Bytes → Bool
  -- `Signature::from_slice` accepts the bytes
  pub is_signature : Bytes → Bool
  -- `verify_prehash`: key, hash, signature
  pub verify_prehash : Bytes → Bytes → Bytes → Bool
  pub keccak256 : Bytes → Bytes
  pub sha256 : Bytes → Bytes

module _ (crypto : Crypto) where
  open crypto use {is_key, is_signature, verify_prehash, keccak256}

  unfoldable pub verifying_key_from_bytes : Bytes → Result Bytes CborError
  verifying_key_from_bytes pubkey =
      if is_key (4 ∷ pubkey) then ok pubkey else err signature_verification

  unfoldable pub signature_from_bytes : Bytes → Result Bytes CborError
  signature_from_bytes bytes = if is_signature bytes then ok bytes else err signature_verification

  unfoldable pub verify_secp256k1 : Bytes → Bytes → Bytes → Result (Unit {0}) CborError
  verify_secp256k1 message signature key =
      if verify_prehash key (keccak256 message) signature then ok tt else err signature_verification
