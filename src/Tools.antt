-- ===== src/Tools.antt =====
-- crates/atomr-cluster-tools/src.
pub mod KillSwitch
pub mod Quiescence
pub mod Latch
mod Tests
