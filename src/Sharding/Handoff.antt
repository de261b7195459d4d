-- ===== src/Sharding/Handoff.antt =====
-- crates/atomr-cluster-sharding/src/handoff.rs: the three-phase hand-off of a shard. The lock around
-- the map makes each call one step.
pub mod Phases
pub mod Drain
use atomr.Base.{
  ℕ, ◌-◌, Bool, true, false, Option, none, some, List, [], ◌∷◌, Text, text_eq, leb, if◌then◌else◌,
  unwrap_or,
}
use atomr.Map.{Map, get, empty, insert, remove}

pub data HandoffState : Type 0 where
  idle : HandoffState
  beginning : Text → HandoffState
  handing_off : Text → ℕ → HandoffState
  stopped : Text → HandoffState
  started : Text → Text → HandoffState

-- `Result<(), HandoffError>`
pub data Outcome : Type 0 where
  ok : Outcome
  invalid_transition : Text → Outcome

pub record HandoffCoordinator : Type 0 where
  pub states : Map Text HandoffState

unfoldable pub new : HandoffCoordinator
new = record { states = empty }

unfoldable pub state : HandoffCoordinator → Text → HandoffState
state c shard = unwrap_or (get c.states shard) idle

-- `g.insert(shard_id, next); Ok(())`
abbrev pub goes : HandoffCoordinator → Text → HandoffState → HandoffCoordinator × Outcome
goes c shard next = (record { states = insert c.states shard next }, ok)

abbrev pub refuses : HandoffCoordinator → Text → HandoffCoordinator × Outcome
refuses c shard = (c, invalid_transition shard)

-- `entry(shard_id).or_insert(Idle)` before the test of the state.
abbrev pub with_entry : HandoffCoordinator → Text → HandoffCoordinator
with_entry c shard = record { states = insert c.states shard (unwrap_or (get c.states shard) idle) }

unfoldable pub begin : HandoffCoordinator → Text → Text → HandoffCoordinator × Outcome
unfolding state
begin c shard source =
    let c' = with_entry c shard in
    elim (state c shard) [
      | idle ↦ goes c' shard (beginning source)
      | started s t ↦ goes c' shard (beginning source)
      | beginning s ↦ refuses c' shard
      | handing_off s n ↦ refuses c' shard
      | stopped s ↦ refuses c' shard
    ]

unfoldable pub ack_begin : HandoffCoordinator → Text → ℕ → HandoffCoordinator × Outcome
unfolding state
ack_begin c shard entity_count = elim (state c shard) [
  | beginning source ↦ goes c shard (handing_off source entity_count)
  | idle ↦ refuses c shard
  | handing_off s n ↦ refuses c shard
  | stopped s ↦ refuses c shard
  | started s t ↦ refuses c shard
]

unfoldable pub entity_stopped : HandoffCoordinator → Text → HandoffCoordinator × Outcome
unfolding state
entity_stopped c shard = elim (state c shard) [
  | handing_off source remaining ↦
      goes c shard (if leb remaining 1 then stopped source else handing_off source (remaining - 1))
  | idle ↦ refuses c shard
  | beginning s ↦ refuses c shard
  | stopped s ↦ refuses c shard
  | started s t ↦ refuses c shard
]

unfoldable pub start_elsewhere : HandoffCoordinator → Text → Text → HandoffCoordinator × Outcome
unfolding state
start_elsewhere c shard target = elim (state c shard) [
  | stopped source ↦ goes c shard (started source target)
  | idle ↦ refuses c shard
  | beginning s ↦ refuses c shard
  | handing_off s n ↦ refuses c shard
  | started s t ↦ refuses c shard
]

unfoldable pub forget : HandoffCoordinator → Text → HandoffCoordinator
forget c shard = record { states = remove c.states shard }
