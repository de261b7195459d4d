-- ===== src/Lib.antt =====
-- Verification of atomr: the core, cluster, sharding, distributed-data, cluster-tools,
-- persistence, remoting, configuration and FIX crates of an actor runtime.
--
-- The parts and their files:
-- - Core/Address: crates/atomr-core/src/actor/address.rs. `Address`, `to_string` (Display) and, in
--   Address/Parse, `parse`.
-- - Core/CircuitBreaker: crates/atomr-core/src/pattern/circuit_breaker.rs. A call is `admit`, which reads
--   the state, and `finish`, which records how the guarded future ended; `call` is the two in a row.
-- - Cluster/VectorClock: crates/atomr-cluster/src/vector_clock.rs (`tick`, `merge`, `compare`).
-- - Cluster/Member, Cluster/Membership: member.rs, membership.rs, `next_status` and `is_converged` of
--   leader.rs. `MembershipState` is the record of the source; each `&mut self` method is a function
--   from the state to the state and what the method returns.
-- - Cluster/Reachability: reachability.rs; the methods `unreachable`, `reachable` and `terminated` are
--   `mark_unreachable`, `mark_reachable` and `mark_terminated`.
-- - Cluster/Leader: `elect_leader` of leader.rs.
-- - Cluster/Sbr, Cluster/SbrRuntime: sbr.rs and sbr_runtime.rs. A strategy is a function of the two
--   sides; whether a lease was acquired is an argument, since the lease is another system's.
-- - Cluster/Gossip: gossip.rs and gossip_pdu.rs.
-- - Cluster/Daemon: `run_daemon`, `do_tick` and `handle_pdu` of cluster_daemon.rs. The local variables
--   of `run_daemon` are the record `Daemon`, a command is one step of `handle`, and what is published
--   or sent is returned as a list of `Effect`.
-- - Cluster/HeartbeatSender: heartbeat_sender.rs.
-- - Ddata: crates/atomr-distributed-data/src, counters.rs (GCounter, PnCounter), register.rs and flag.rs
--   (Register), sets.rs (Sets) and maps.rs (Maps).
-- - Remote/AckedDelivery: crates/atomr-remote/src/acked_delivery.rs. Envelopes are a type parameter.
-- - Remote/Chunking: crates/atomr-remote/src/chunking.rs. `Reassembler::push` is `push` with `entry`, `fill` and
--   `finish` for its steps.
-- - Core/Queues: crates/atomr-core/src/dispatch/message_queues.rs and util/bounded_queue.rs. Fifo has the unbounded
--   queues, Bounded the bounded ones, Priority the heaps.
-- - Core/Stash: crates/atomr-core/src/actor/stash.rs, the bounded stash.
-- - Ddata/Replicator: crates/atomr-distributed-data/src/replicator.rs. An entry of any type is a record of
--   how it is boxed, cast back and merged.
-- - Ddata/Pruning: crates/atomr-distributed-data/src/pruning.rs, the markers and the two aggregators.
-- - Persistence/Journal: crates/atomr-persistence/src/journal.rs, the in-memory journal.
-- - Tools/KillSwitch, Tools/Quiescence: crates/atomr-cluster-tools/src/kill_switch.rs. `await_quiescence` is
--   `start_quiescence`, up to the wait for the peers, and `report`, after it.
-- - Config/Value: crates/atomr-config/src/value.rs, the value tree and its merges.
-- - Config/Cursor, Scalar, Strings, Dotted, Hocon, Resolve: crates/atomr-config/src/hocon.rs. The cursor is
--   the bytes from `pos` on with the line and the column; a `while let` over bytes is `skip_while`. Including
--   a file, the environment and the parser of `f64` are parameters.
-- - Fix: crates/atomr-fix/src. Tags, Message and Message/Wire are message.rs, SeqStore is seq_store.rs,
--   Clock, Session and Session/Inbound are session.rs. `&mut self` is a session taken and given back;
--   `handle_inbound` is split by its guards and the arms of its match.
-- - Sharding/Handoff: crates/atomr-cluster-sharding/src/handoff.rs, one function to each method.
-- - Sharding/Allocation, Sharding/Coordinator: allocation.rs, coordinator.rs and rebalance.rs. A strategy is a
--   record of its two methods, which the coordinator and the scheduling tick take as an argument.
-- The daemon calls the membership state, the leader election, the split-brain runtime and the gossip
-- protocol; the runtime calls a strategy; the PN-counter holds two grow-only counters, the multi-map
-- holds observed-remove sets. The kill switch keeps its epoch
-- in a register and its latch in a flag of the replicator. The scheduling tick reads the hand-offs, the table and the strategy. A FIX session stamps its messages from the sequence store and reads the other
-- side's with the codec's field access.
--
-- What the parts share: Base (tests, lists and slices, keys with decidable equality, byte strings,
-- UTF-8, decimal and little-endian numbers, integers), Map
-- (`HashMap` and `BTreeMap` as association lists with unique keys, spoken of through `get`), Keyed (a
-- `Vec` of records that is searched by a key) and Sorted (`sort_by_key` and the first element).
--
-- Bounds: `u64` and `u32` arithmetic wraps, as in a release build, written `% u64_mod` and `% u32_mod`;
-- `duration_since` stops at 0. Texts are lists of bytes. Fuel is used in four loops: that in
-- `AckedReceiveBuffer::observe`: each round takes a number out of a finite set, and the fuel is the size
-- of that set; and that of `payload.chunks`, which takes at least a byte in each round, so that a round for
-- each byte is enough; that of `parse_key`, of which the same holds; and the nested calls of the HOCON
-- parser, where two for each byte and two more are enough, since every call in the same place goes one level
-- down and every loop reads a byte. The loop of `pick_gossip_target` runs over as many offsets as there are peers.
--
-- Not modelled: channels, tasks, timers and locks of tokio, the transports and codecs, the event bus's
-- subscribers and the daemon's `Shutdown` command; the iteration order of hash maps, which
-- no theorem speaks of; the driver loop `run` of a FIX session. The other crates are listed with the reasons beside this development.
pub mod Base
pub mod Map
pub mod Keyed
pub mod Sorted
pub mod Core
pub mod Cluster
pub mod Config
pub mod Ddata
pub mod Persistence
pub mod Remote
pub mod Sharding
pub mod Tools
pub mod Fix
