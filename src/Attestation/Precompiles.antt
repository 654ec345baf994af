-- ===== src/Attestation/Precompiles.antt =====
-- contracts/stylus/attestation-verifier/src/lib.rs: the calls of the precompiled contracts, and RS256 signatures
-- checked with them.
pub mod Answers
use synddb.Prelude.{
  ℕ, ◌%◌, Option, none, some, ◌++◌, length, take, drop, leb, ◌==◌, if◌then◌else◌, Result, ok, err,
  ◌>>=◌,
}
use synddb.Shared.Bytes.{Bytes, be_bytes, from_be}
use synddb.Attestation.Pkcs1.{verify_pkcs1v15_sha256}
use synddb.Attestation.State.{
  VerifierError, rsa_verification_failed, ecrecover_failed, precompile_failed, Vm, require, ok_or,
}

module _ (vm : Vm) where
  open vm use {static_call}

  abbrev pub at_least_32 : Option Bytes → Result ℕ VerifierError
  at_least_32 none = err ecrecover_failed
  at_least_32 (some result) =
      if leb 32 (length result)
      then ok (from_be 0 (take 20 (drop 12 result)))
      else err ecrecover_failed

  unfoldable pub ecrecover_call : ℕ → ℕ → ℕ → ℕ → Result ℕ VerifierError
  unfolding be_bytes from_be
  ecrecover_call hash v r s =
      at_least_32
        (static_call 1 (be_bytes 32 hash ++ (be_bytes 32 v ++ (be_bytes 32 r ++ be_bytes 32 s))))

  abbrev pub exactly_32 : Option Bytes → Result Bytes VerifierError
  exactly_32 none = err precompile_failed
  exactly_32 (some result) = if length result == 32 then ok result else err precompile_failed

  unfoldable pub sha256_call : Bytes → Result Bytes VerifierError
  sha256_call input = exactly_32 (static_call 2 input)

  abbrev pub u32_mod : ℕ
  u32_mod = 4_294_967_296

  -- The three lengths are cut to u32.
  unfoldable pub modexp_call : Bytes → Bytes → Bytes → Result Bytes VerifierError
  unfolding be_bytes
  modexp_call base exponent modulus =
      let input =
        be_bytes 32 (length base % u32_mod)
        ++ (be_bytes 32 (length exponent % u32_mod)
            ++ (be_bytes 32 (length modulus % u32_mod) ++ (base ++ (exponent ++ modulus)))) in
      ok_or (static_call 5 input) precompile_failed

  unfoldable pub verify_rs256 : Bytes → Bytes → Bytes → Bytes → Result (Unit {0}) VerifierError
  unfolding sha256_call modexp_call verify_pkcs1v15_sha256
  verify_rs256 signing_input signature modulus exponent = do
    hash ← sha256_call signing_input
    decrypted ← modexp_call signature exponent modulus
    require (verify_pkcs1v15_sha256 decrypted hash) rsa_verification_failed
