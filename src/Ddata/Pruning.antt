-- ===== src/Ddata/Pruning.antt =====
-- crates/atomr-distributed-data/src/pruning.rs: the markers of removed nodes, and the counters of the
-- replies to a write and to a read.
pub mod Phases
pub mod Replies
use atomr.Base.{
  ℕ, suc, ◌+◌, ◌-◌, ◌%◌, u64_mod, Bool, true, false, Option, none, some, leb, ltb, max,
  if◌then◌else◌, Text, text_eq,
}
use atomr.Map
use atomr.Map.{Map}

pub data PruningPhase : Type 0 where
  initialized : (owner : Text) → PruningPhase
  performed : (owner : Text) (obsolete_at : ℕ) → PruningPhase

pub record PruningState : Type 0 where
  pub markers : Map Text PruningPhase

unfoldable pub new : PruningState
new = record { markers = Map.empty }

-- `entry(node).or_insert(Initialized { owner })`
unfoldable pub or_insert : Option PruningPhase → PruningState → Text → Text → PruningState
or_insert none s node owner = record { markers = Map.insert s.markers node (initialized owner) }
or_insert (some phase) s node owner = s

unfoldable pub initialize : PruningState → (removed_node owner : Text) → PruningState
initialize s removed_node owner = or_insert (Map.get s.markers removed_node) s removed_node owner

unfoldable pub performs : Option PruningPhase → PruningState → Text → ℕ → Bool × PruningState
performs none s node obsolete_at = (false, s)
performs (some (initialized owner)) s node obsolete_at =
    (true, record { markers = Map.insert s.markers node (performed owner obsolete_at) })
performs (some (performed owner at)) s node obsolete_at = (false, s)

unfoldable pub mark_performed :
    PruningState → (removed_node : Text) → (obsolete_at : ℕ) → Bool × PruningState
mark_performed s removed_node obsolete_at =
    performs (Map.get s.markers removed_node) s removed_node obsolete_at

unfoldable pub is_pruned : PruningState → Text → Bool
is_pruned s removed_node = Map.is_some (Map.get s.markers removed_node)

unfoldable pub owner_of : Option PruningPhase → Option Text
owner_of none = none
owner_of (some (initialized owner)) = some owner
owner_of (some (performed owner at)) = some owner

unfoldable pub owner : PruningState → Text → Option Text
owner s removed_node = owner_of (Map.get s.markers removed_node)

unfoldable pub outlives : ℕ → Option PruningPhase → Bool
outlives current_round none = false
outlives current_round (some (initialized owner)) = true
outlives current_round (some (performed owner obsolete_at)) = ltb current_round obsolete_at

-- How many markers went, and the state after. A marker is looked up by its key.
unfoldable pub gc : PruningState → ℕ → ℕ × PruningState
gc s current_round =
    let kept = Map.retain (λ k. outlives current_round (Map.get s.markers k)) s.markers in
    (Map.size s.markers - Map.size kept, record { markers = kept })

-- The marker that stays of ours and theirs.
unfoldable pub chosen : Option PruningPhase → PruningPhase → PruningPhase
chosen none v = v
chosen (some (initialized owner)) (performed other at) = performed other at
chosen (some (performed owner lhs)) (performed other rhs) =
    if ltb lhs rhs then performed other rhs else performed owner lhs
chosen (some (initialized owner)) (initialized other) = initialized owner
chosen (some (performed owner lhs)) (initialized other) = performed owner lhs

unfoldable pub merge : PruningState → PruningState → PruningState
merge s other = record { markers = Map.merge_with chosen s.markers other.markers }

pub record WriteAggregator : Type 0 where
  pub target : ℕ
  pub received : ℕ
  pub nacks : ℕ

unfoldable pub new_write : ℕ → WriteAggregator
new_write target = record { target = max target 1; received = 0; nacks = 0 }

unfoldable pub ack : WriteAggregator → WriteAggregator
ack w = record w { received = (w.received + 1) % u64_mod }

unfoldable pub nack : WriteAggregator → WriteAggregator
nack w = record w { nacks = (w.nacks + 1) % u64_mod }

unfoldable pub is_satisfied : WriteAggregator → Bool
is_satisfied w = leb w.target w.received

unfoldable pub is_failed : WriteAggregator → ℕ → Bool
is_failed w cluster_size = ltb (cluster_size - w.target) w.nacks

pub record ReadAggregator : Type 0 where
  pub target : ℕ
  pub received : ℕ

unfoldable pub new_read : ℕ → ReadAggregator
new_read target = record { target = max target 1; received = 0 }

unfoldable pub reply : ReadAggregator → ReadAggregator
reply r = record r { received = (r.received + 1) % u64_mod }

unfoldable pub is_read_satisfied : ReadAggregator → Bool
is_read_satisfied r = leb r.target r.received
