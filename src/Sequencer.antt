-- ===== src/Sequencer.antt =====
-- The sequencer (crates/synddb-sequencer).
pub mod Inbox
pub mod MessageQueue
pub mod Batcher
pub mod Outbound
pub mod LocalTransport
