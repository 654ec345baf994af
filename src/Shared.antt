-- ===== src/Shared.antt =====
-- What the sequencer and the validator share (crates/synddb-shared).
pub mod Bytes
pub mod Decimal
pub mod BatchInfo
pub mod Cbor
pub mod Message
pub mod Convert
