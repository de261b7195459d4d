-- ===== src/Ddata/Maps.antt =====
-- crates/atomr-distributed-data/src/maps.rs: the four replicated maps.
pub mod OrMap
pub mod LwwMap
pub mod PnCounterMap
pub mod OrMultiMap
pub mod Visible
