-- ===== src/Cluster.antt =====
-- crates/atomr-cluster: membership, gossip, leadership and split-brain resolution.
pub mod VectorClock
pub mod Member
pub mod Reachability
pub mod Membership
pub mod Leader
pub mod Sbr
pub mod SbrRuntime
pub mod Gossip
pub mod Daemon
pub mod HeartbeatSender
mod Tests
