-- ===== src/Sharding/ScheduleTests.antt =====
-- The theorems on allocation and scheduling at a concrete table.
use atomr.Base.{refl, inl, inr, Text, codes, text_eq, text_beq, text_leb, ◌∷◌, []}
use atomr.Map.{get, lookup, set, insert, empty, size, IsUnique}
use atomr.Sharding.Allocation.{
  least_shard, default, allocate_least, sort_by, place, name_of, rebalance_least, values, greatest,
  smallest, with_count, has, located_in,
}
use atomr.Sharding.Handoff.{HandoffCoordinator, HandoffState, stopped, state}
use atomr.Sharding.Coordinator.{
  ShardCoordinator, region_shard_counts, count_regions, step, promote, pick, snapshot,
  rebalance_with_strategy, region_for, begin_handoff, begin_action, allocate_action, is_stopped,
  can_begin,
}
use atomr.Sharding.Coordinator.Schedule.{IsSound, step-IsSound}

table-IsUnique :
    IsUnique {K = Text} {V = Text}
      ((codes "s1", codes "r1") ∷ (codes "s2", codes "r1") ∷ (codes "s3", codes "r2") ∷ [])
unfolding lookup text_beq
table-IsUnique = (refl, (refl, (refl, tt)))

-- Two shards at r1, one at r2.
abbrev table : ShardCoordinator
table = record {
  allocation = record {
    entries = (codes "s1", codes "r1") ∷ (codes "s2", codes "r1") ∷ (codes "s3", codes "r2") ∷ [];
    unique = table-IsUnique;
  };
}

draining-IsUnique : IsUnique {K = Text} {V = HandoffState} ((codes "s1", stopped (codes "r1")) ∷ [])
unfolding lookup
draining-IsUnique = (refl, tt)

-- The first shard has been stopped.
abbrev draining : HandoffCoordinator
draining = record {
  states = record { entries = (codes "s1", stopped (codes "r1")) ∷ []; unique = draining-IsUnique };
}

step-IsSound_example :
    IsSound table draining (least_shard default) (begin_handoff (codes "s2") (codes "r1"))
unfolding text_beq least_shard default allocate_least region_shard_counts count_regions insert set
    get lookup empty sort_by place name_of text_leb step promote pick snapshot
    rebalance_with_strategy rebalance_least values greatest smallest with_count has located_in size
    is_stopped can_begin state allocate_action begin_action region_for
step-IsSound_example =
    step-IsSound table draining (least_shard default) (begin_handoff (codes "s2") (codes "r1"))
      (inr (inl refl))
