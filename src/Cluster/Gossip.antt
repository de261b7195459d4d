-- ===== src/Cluster/Gossip.antt =====
-- crates/atomr-cluster/src/gossip.rs and gossip_pdu.rs.
pub mod Merge
use atomr.Base.{
  ℕ, ◌+◌, ◌%◌, Option, none, some, List, [], ◌∷◌, ◌++◌, Eq, ◌==◌, pair_eq, if◌then◌else◌, length,
  Text, zero, suc, u64_mod,
}
use atomr.Core.Address.{Address, address_eq}
use atomr.Map.{Map, insert}
use atomr.Cluster.VectorClock.{VectorClock, VectorRelation, compare}
use atomr.Cluster.VectorClock
use atomr.Cluster.Member.{Member}
use atomr.Cluster.Reachability.{Reachability, ReachabilityStatus}
use atomr.Cluster.Membership.{MembershipState, add_or_update}
use atomr.Cluster.Membership

pub record Gossip : Type 0 where
  pub version : VectorClock
  pub state : MembershipState

unfoldable pub new : Gossip
new = record { version = VectorClock.new; state = Membership.new }

unfoldable pub tick : Gossip → Text → Gossip
tick g node = record g { version = VectorClock.tick g.version node }

unfoldable pub add_all : MembershipState → List Member → MembershipState
add_all s [] = s
add_all s (m ∷ ms) = add_all (add_or_update s m) ms

unfoldable pub insert_all :
    Reachability → List ((Address × Address) × ReachabilityStatus) → Reachability
insert_all r [] = r
insert_all r ((k, st) ∷ l) = insert_all (record { records = insert r.records k st }) l

-- The members of both, and the records of both; the later insertion stands.
unfoldable pub merge : Gossip → Gossip → Gossip
unfolding add_all insert_all
merge a b =
    let s = add_all Membership.new (a.state.members ++ b.state.members) in
    record {
      version = VectorClock.merge a.version b.version;
      state = record s {
        reachability =
            insert_all s.reachability
              (a.state.reachability.records.entries ++ b.state.reachability.records.entries);
      };
    }

pub data GossipPdu : Type 0 where
  status : Text → VectorClock → GossipPdu
  envelope : Text → VectorClock → MembershipState → GossipPdu
  merge_request : Text → VectorClock → GossipPdu

pub data GossipDecision : Type 0 where
  send_envelope request_merge merge_both same : GossipDecision

unfoldable pub decide : VectorClock → VectorClock → GossipDecision
decide local remote = elim (compare local remote) [
  | VectorRelation.same ↦ same
  | VectorRelation.after ↦ send_envelope
  | VectorRelation.before ↦ request_merge
  | VectorRelation.concurrent ↦ merge_both
]

-- `peers[i]`
unfoldable pub nth : List Address → ℕ → Option Address
nth [] i = none
nth (p ∷ ps) zero = some p
nth (p ∷ ps) (suc i) = nth ps i

-- The loop over the offsets that are left, of which `offset` is the next.
pick_from : ℕ → List Address → Address → ℕ → ℕ → Option Address
unfolding nth
pick_from zero peers self_addr cursor offset = none
pick_from (suc left) peers self_addr cursor offset =
    let rest = pick_from left peers self_addr cursor (offset + 1) in
    elim (nth peers ((cursor + offset) % u64_mod % length peers)) [
      | none ↦ none
      | some p ↦ if p == self_addr then rest else some p
    ]

unfoldable pub pick_gossip_target : List Address → Address → ℕ → Option Address
unfolding pick_from
pick_gossip_target peers self_addr cursor = pick_from (length peers) peers self_addr cursor 0
