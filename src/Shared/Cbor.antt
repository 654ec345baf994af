-- ===== src/Shared/Cbor.antt =====
-- crates/synddb-shared/src/types/cbor: signed messages and batches.
pub mod Error
pub mod Crypto
pub mod Cose
pub mod CoseLaws
pub mod Batch
pub mod BatchLaws
pub mod Tests
