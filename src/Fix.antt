-- ===== src/Fix.antt =====
-- crates/atomr-fix: the message codec and the session state machine of the FIX protocol.
pub mod Tags
pub mod Message
pub mod SeqStore
pub mod Clock
pub mod Session
mod Tests
