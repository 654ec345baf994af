-- ===== src/Validator.antt =====
-- crates/synddb-validator: reading the sequenced messages back and applying them.
pub mod BatchIndex
pub mod Sqlite
pub mod Error
pub mod Rules
pub mod Store
pub mod Applier
pub mod Audit
pub mod Sync
pub mod SyncLoop
pub mod BatchLoop
pub mod SyncBatched
pub mod SignatureStore
