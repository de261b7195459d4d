-- ===== src/Ddata.antt =====
-- crates/atomr-distributed-data: the replicated data types.
pub mod CrdtMerge
pub mod GCounter
pub mod PnCounter
pub mod Register
pub mod Replicator
pub mod Pruning
pub mod Sets
pub mod Maps
mod Tests
