-- ===== src/Sharding/Tests.antt =====
-- The theorems on the hand-off at a concrete coordinator.
use atomr.Base.{refl, Text, codes, text_eq, ◌∷◌, []}
use atomr.Map.{lookup, IsUnique}
use atomr.Sharding.Handoff.{HandoffCoordinator, HandoffState, beginning, state}
use atomr.Sharding.Handoff.Phases.{ack_call, call, Moves, call-Moves}

abbrev shard : Text
shard = codes "s1"

abbrev region : Text
region = codes "r1"

abbrev target : Text
target = codes "r2"

begun-IsUnique : IsUnique {K = Text} {V = HandoffState} ((codes "s1", beginning (codes "r1")) ∷ [])
unfolding lookup
begun-IsUnique = (refl, tt)

abbrev begun : HandoffCoordinator
begun = record {
  states = record { entries = (shard, beginning region) ∷ []; unique = begun-IsUnique };
}

call-Moves_example :
    Moves
      (state begun shard)
      (state (call begun (ack_call shard 2)).0 shard)
      (call begun (ack_call shard 2)).1
call-Moves_example = call-Moves begun (ack_call shard 2)
