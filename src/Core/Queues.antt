-- ===== src/Core/Queues.antt =====
-- The mailbox queues of crates/atomr-core/src/dispatch/message_queues.rs. A `VecDeque` is a list, the front
-- first.
pub mod Fifo
pub mod Bounded
pub mod Priority
pub mod Overflow
pub mod Control
pub mod Stable
