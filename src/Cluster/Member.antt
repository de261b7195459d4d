-- ===== src/Cluster/Member.antt =====
-- crates/atomr-cluster/src/member.rs and the event type of events.rs.
use atomr.Base.{ℤ, pos, Bool, true, false, Option, List, Text}
use atomr.Core.Address.{Address}

pub data MemberStatus : Type 0 where
  joining weakly_up up leaving exiting down removed : MemberStatus

pub record Member : Type 0 where
  pub address : Address
  pub up_number : ℤ
  pub status : MemberStatus
  pub roles : List Text

-- `Member::new`
unfoldable pub new : Address → List Text → Member
new address roles = record {
  address = address;
  up_number = pos 0;
  status = MemberStatus.joining;
  roles = roles;
}

-- `matches!(status, …)` on one status.
abbrev pub is_up : MemberStatus → Bool
is_up MemberStatus.up = true
is_up _ = false

abbrev pub is_removed : MemberStatus → Bool
is_removed MemberStatus.removed = true
is_removed _ = false

pub data ClusterEvent : Type 0 where
  member_joined member_weakly_up member_up member_left member_exited member_downed :
      Member → ClusterEvent
  member_removed : Member → MemberStatus → ClusterEvent
  unreachable_member reachable_member : Member → ClusterEvent
  leader_changed : Option Address → Option Address → ClusterEvent
  cluster_shutting_down : ClusterEvent
  convergence : Bool → ClusterEvent
