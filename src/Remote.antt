-- ===== src/Remote.antt =====
-- The parts of crates/atomr-remote that are modelled.
pub mod AckedDelivery
pub mod Chunking
mod Tests
