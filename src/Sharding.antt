-- ===== src/Sharding.antt =====
-- The parts of crates/atomr-cluster-sharding that are modelled.
pub mod Handoff
pub mod Allocation
pub mod Coordinator
mod Tests
mod ScheduleTests
