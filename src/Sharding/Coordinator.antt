-- ===== src/Sharding/Coordinator.antt =====
-- crates/atomr-cluster-sharding/src/coordinator.rs and rebalance.rs: the table of the shards, and the scheduling of
-- hand-offs. The locks make each call one step.
pub mod Schedule
use atomr.Base.{
  ℕ, ◌+◌, Bool, true, false, Option, none, some, List, [], ◌∷◌, ◌++◌, Text, text_eq, text_leb,
  unwrap_or,
}
use atomr.Map.{Map, get, empty, insert, size}
use atomr.Sharding.Allocation.{ShardAllocationStrategy, sort_by}
use atomr.Sharding.Handoff.{
  HandoffCoordinator, HandoffState, idle, beginning, handing_off, stopped, started, state,
}

pub record ShardCoordinator : Type 0 where
  pub allocation : Map Text Text

unfoldable pub new : ShardCoordinator
new = record { allocation = empty }

unfoldable pub allocate_entry :
    ShardCoordinator → Text → Text → Option Text → ShardCoordinator × Text
allocate_entry c shard region (some owner) = (c, owner)
allocate_entry c shard region none =
    (record { allocation = insert c.allocation shard region }, region)

unfoldable pub allocate : ShardCoordinator → Text → Text → ShardCoordinator × Text
allocate c shard default_region = allocate_entry c shard default_region (get c.allocation shard)

-- `*out.entry(region).or_insert(0) += 1` for each shard.
unfoldable pub count_regions : Map Text ℕ → List (Text × Text) → Map Text ℕ
count_regions out [] = out
count_regions out ((shard, region) ∷ l) =
    count_regions (insert out region (unwrap_or (get out region) 0 + 1)) l

unfoldable pub region_shard_counts : ShardCoordinator → Map Text ℕ
region_shard_counts c = count_regions empty c.allocation.entries

unfoldable pub place_shard : ShardCoordinator → Text → Option Text → ShardCoordinator × Option Text
place_shard c shard none = (c, none)
place_shard c shard (some chosen) =
    (record { allocation = insert c.allocation shard chosen }, some chosen)

unfoldable pub allocate_with_strategy :
    ShardCoordinator → Text → ShardAllocationStrategy → ShardCoordinator × Option Text
allocate_with_strategy c shard strategy =
    place_shard c shard (strategy.allocate_shard shard (region_shard_counts c))

unfoldable pub rebalance_with_strategy : ShardCoordinator → ShardAllocationStrategy → List Text
rebalance_with_strategy c strategy = strategy.rebalance c.allocation (region_shard_counts c)

unfoldable pub region_for : ShardCoordinator → Text → Option Text
region_for c shard = get c.allocation shard

unfoldable pub rebalance : ShardCoordinator → Text → Text → ShardCoordinator
rebalance c shard to_region = record { allocation = insert c.allocation shard to_region }

unfoldable pub shard_count : ShardCoordinator → ℕ
shard_count c = size c.allocation

pub data RebalanceAction : Type 0 where
  begin_handoff : (shard_id source_region : Text) → RebalanceAction
  allocate_to : (shard_id target_region : Text) → RebalanceAction

unfoldable pub is_stopped : HandoffState → Bool
is_stopped (stopped source) = true
is_stopped idle = false
is_stopped (beginning source) = false
is_stopped (handing_off source n) = false
is_stopped (started source target) = false

-- No hand-off is under way.
unfoldable pub can_begin : HandoffState → Bool
can_begin idle = true
can_begin (started source target) = true
can_begin (beginning source) = false
can_begin (handing_off source n) = false
can_begin (stopped source) = false

unfoldable pub allocate_action : Text → Option Text → List RebalanceAction
allocate_action shard none = []
allocate_action shard (some target) = allocate_to shard target ∷ []

unfoldable pub begin_action : Text → Option Text → List RebalanceAction
begin_action shard none = []
begin_action shard (some source) = begin_handoff shard source ∷ []

-- handoff.rs: `HandoffCoordinator::snapshot`, sorted by the shards' names.
unfoldable pub snapshot : HandoffCoordinator → List (Text × HandoffState)
snapshot handoff = sort_by (λ a b. text_leb a.0 b.0) handoff.states.entries

-- The first loop of `step`, over the snapshot of the hand-offs.
unfoldable pub promote :
    ShardCoordinator → ShardAllocationStrategy → List (Text × HandoffState) → List RebalanceAction
promote c strategy [] = []
promote c strategy ((shard, s) ∷ l) =
    let rest = promote c strategy l in
    elim (is_stopped s) [
      | true ↦ allocate_action shard (strategy.allocate_shard shard (region_shard_counts c)) ++ rest
      | false ↦ rest
    ]

-- The second loop, over the shards that the strategy picks.
unfoldable pub pick : ShardCoordinator → HandoffCoordinator → List Text → List RebalanceAction
pick c handoff [] = []
pick c handoff (shard ∷ l) =
    let rest = pick c handoff l in
    elim (can_begin (state handoff shard)) [
      | true ↦ begin_action shard (region_for c shard) ++ rest
      | false ↦ rest
    ]

unfoldable pub step :
    ShardCoordinator → HandoffCoordinator → ShardAllocationStrategy → List RebalanceAction
step c handoff strategy =
    promote c strategy (snapshot handoff) ++ pick c handoff (rebalance_with_strategy c strategy)
