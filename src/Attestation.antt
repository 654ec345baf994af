-- ===== src/Attestation.antt =====
-- The on-chain verifier of attestation tokens (contracts/stylus/attestation-verifier).
pub mod Base64
pub mod Pkcs1
pub mod Json
pub mod Jwt
pub mod State
pub mod Precompiles
pub mod Verifier
pub mod Admin
pub mod Tests
