-- ===== src/Client.antt =====
-- crates/synddb-client/src: the delivery of captured changesets to the sequencer.
pub mod Retry
pub mod Recovery
pub mod Sender
