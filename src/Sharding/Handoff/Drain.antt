-- ===== src/Sharding/Handoff/Drain.antt =====
-- The entities of a shard that is handed off, as they stop.
use atomr.Base.{ℕ, zero, suc, ◌-◌, ◌≤◌, ◌<◌, ◌≡◌, arith, Text, text_eq, leb, if◌then◌else◌, ap, ◌∙◌}
use atomr.Sharding.Handoff.{
  handing_off, stopped, HandoffCoordinator, state, ack_begin, entity_stopped, beginning, started,
  start_elsewhere,
}
use atomr.Sharding.Handoff.Phases.{state-goes, one_left}

unfoldable pub stop_entities : HandoffCoordinator → Text → ℕ → HandoffCoordinator
stop_entities c shard zero = c
stop_entities c shard (suc k) = stop_entities (entity_stopped c shard).0 shard k

state-entity_stopped :
    (c : HandoffCoordinator) (shard source : Text) (m : ℕ)
    → state c shard ≡ handing_off source m
    → state (entity_stopped c shard).0 shard
      ≡ (if leb m 1 then stopped source else handing_off source (m - 1))
unfolding entity_stopped
state-entity_stopped c shard source m e =
    rw (e, entity_stopped)
      (state-goes c shard (if leb m 1 then stopped source else handing_off source (m - 1)))

still_handing_off :
    (c : HandoffCoordinator) (shard source : Text) (m k : ℕ)
    → state c shard ≡ handing_off source m
    → k < m
    → state (stop_entities c shard k) shard ≡ handing_off source (m - k)
unfolding stop_entities
still_handing_off c shard source m zero e h = e ∙ ap (handing_off source) (omega arith)
still_handing_off c shard source m (suc k) e h =
    still_handing_off (entity_stopped c shard).0 shard source (m - 1) k
      (state-entity_stopped c shard source m e ∙ ground arith) (omega arith)
    ∙ ap (handing_off source) (omega arith)

all_stopped :
    (c : HandoffCoordinator) (shard source : Text) (m : ℕ)
    → state c shard ≡ handing_off source (suc m)
    → state (stop_entities c shard (suc m)) shard ≡ stopped source
unfolding stop_entities
all_stopped c shard source zero e = state-entity_stopped c shard source (suc zero) e
all_stopped c shard source (suc m) e =
    all_stopped (entity_stopped c shard).0 shard source m
      (state-entity_stopped c shard source (suc (suc m)) e ∙ one_left source m)

-- A shard whose source acknowledges some entities is handing off until that many have stopped, is
-- stopped then, and goes to the region that is allocated.
pub drain_lem :
    (c : HandoffCoordinator) (shard source target : Text) (m k : ℕ)
    → state c shard ≡ beginning source
    → k ≤ m
    → let c1 = (ack_begin c shard (suc m)).0 in
      let c2 = stop_entities c1 shard (suc m) in
      (state (stop_entities c1 shard k) shard ≡ handing_off source (suc m - k))
      × (state c2 shard ≡ stopped source)
      × (state (start_elsewhere c2 shard target).0 shard ≡ started source target)
drain_lem c shard source target m k e h = (
  still_handing_off (ack_begin c shard (suc m)).0 shard source (suc m) k acked (omega arith),
  done,
  finished (stop_entities (ack_begin c shard (suc m)).0 shard (suc m)) done,
)
  where
    acked : state (ack_begin c shard (suc m)).0 shard ≡ handing_off source (suc m)
    acked = unfold ack_begin in rw (e, ack_begin) (state-goes c shard (handing_off source (suc m)))

    done : state (stop_entities (ack_begin c shard (suc m)).0 shard (suc m)) shard ≡ stopped source
    done = all_stopped (ack_begin c shard (suc m)).0 shard source m acked

    finished :
        (d : HandoffCoordinator)
        → state d shard ≡ stopped source
        → state (start_elsewhere d shard target).0 shard ≡ started source target
    finished d f =
        unfold start_elsewhere in
        rw (f, start_elsewhere) (state-goes d shard (started source target))

-- A shard whose source acknowledges no entity at all is never stopped by that: it stays in the
-- hand-off until an entity that does not exist reports.
pub drain_of_none :
    (c : HandoffCoordinator) (shard source target : Text)
    → state c shard ≡ beginning source
    → let c1 = (ack_begin c shard 0).0 in
      (state c1 shard ≡ handing_off source 0)
      × (state (start_elsewhere c1 shard target).0 shard ≡ handing_off source 0)
drain_of_none c shard source target e = (acked, stuck (ack_begin c shard 0).0 acked)
  where
    acked : state (ack_begin c shard 0).0 shard ≡ handing_off source 0
    acked = unfold ack_begin in rw (e, ack_begin) (state-goes c shard (handing_off source 0))

    stuck :
        (d : HandoffCoordinator)
        → state d shard ≡ handing_off source 0
        → state (start_elsewhere d shard target).0 shard ≡ handing_off source 0
    stuck d f = unfold start_elsewhere in rw (f, start_elsewhere) f
