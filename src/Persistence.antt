-- ===== src/Persistence.antt =====
-- crates/atomr-persistence/src.
pub mod Journal
mod Tests
