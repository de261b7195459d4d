-- ===== src/Core.antt =====
-- crates/atomr-core: the parts of the actor runtime that are modelled.
pub mod Address
pub mod CircuitBreaker
pub mod Queues
pub mod Stash
mod Tests
mod QueueTests
