-- ===== src/Relayer.antt =====
-- crates/synddb-relayer/src: the service that registers keys and submits withdrawals for others.
pub mod Text
pub mod Config
pub mod Submitter
pub mod Handlers
pub mod Withdrawal
pub mod Tests
