-- ===== src/Cluster/Tests.antt =====
-- Members, states and clocks at which the theorems on atomr-cluster are applied.
mod Members
mod Partitions
mod Daemons
use atomr.Base.{
  ℕ, ◌+◌, ◌≤◌, ◌<◌, ◌-◌, ◌≡◌, ◌≢◌, refl, Bool, true, false, not, Option, none, some, List, [], ◌∷◌,
  ◌++◌, arith, Text, codes, text_eq, text_beq, pos, negsuc, ℤ, leb_ℤ, inl, inr, ◌⊎◌, ◌↔◌, length,
  unwrap_or, decimal, u64_mod, pair_eq, option_eq, nat_eq, ◌==◌, Eq,
}
use mathlib.Core.Option
use atomr.Core.Address.{Address, address_eq, to_string}
use atomr.Core.Address.Parse.{parse}
use atomr.Keyed.{find, retain}
use atomr.Keyed.Unique.{or_else}
use atomr.Map.{Map, get, empty, insert, lookup, IsUnique, set, keys, collect}
use atomr.Cluster.Member.{Member, MemberStatus}
use atomr.Cluster.VectorClock.{
  VectorClock, VectorRelation, before, same, version_of, compare, tick, merge,
}
use atomr.Cluster.VectorClock.Order.{Leq, Relates, compare-Relates, merge-IsJoin, compare-tick}
use atomr.Cluster.Reachability.{Reachability, ReachabilityStatus, mark_unreachable, mark_terminated}
use atomr.Cluster.Reachability
use atomr.Cluster.Reachability.Status
use atomr.Cluster.Reachability.Status.{Judges, status-Judges, status-run_terminated, says_reachable}
use atomr.Cluster.Membership.{
  MembershipState, address, apply_leader_actions, is_converged, down, leave, settled, next_status,
}
use atomr.Cluster.Membership.Addresses.{IsValid, Call, call, call-IsValid, downs}
use atomr.Cluster.Membership.LeaderActions.{spec_members, spec_events, apply_leader_actions_lem}
use atomr.Cluster.Leader.{elect_leader}
use atomr.Cluster.Leader.Election.{Elects, Covers, elect_leader-Elects, elect_leader-agree}
use atomr.Cluster.Sbr.{
  DowningDecision, keep_majority, static_quorum, keep_oldest, oldest, lease_majority, up_count,
}
use atomr.Cluster.Sbr.Survivors.{
  mirror, keep_majority-mirror, static_quorum_one_survivor, keep_oldest_lem, keeps, IsLowest,
  lease_majority_both,
}
use atomr.Cluster.SbrRuntime.{SbrRuntime, sides, no_action}
use atomr.Cluster.SbrRuntime
use atomr.Cluster.SbrRuntime.Stability.{tick_acts}
use atomr.Cluster.SbrRuntime.Notices.{Alternates, run-Alternates}
use atomr.Cluster.SbrRuntime.Notices
use atomr.Cluster.Gossip.{Gossip, status, envelope, merge_request}
use atomr.Cluster.Gossip
use atomr.Cluster.Gossip.Merge.{merge_lem}
use atomr.Cluster.Daemon.{
  Daemon, Effect, send, start, handle_pdu, my_envelope, cmd_join, cmd_tick, apply_gossip,
}
use atomr.Cluster.Daemon.Invariant
use atomr.Cluster.Daemon.Invariant.{run-IsValid}
use atomr.Cluster.Daemon.Exchange.{my_status, pull_catches_up, envelope_overrides}
use atomr.Cluster.Membership.Lifecycle.{
  status_at, after_tick, status_at-apply_leader_actions, down_then_gone, graceful_leave,
}

abbrev alpha : Address
alpha = record {
  protocol = codes "akka";
  system = codes "sys";
  host = some (codes "a");
  port = some 1;
}

abbrev beta : Address
beta = record {
  protocol = codes "akka";
  system = codes "sys";
  host = some (codes "b");
  port = some 2;
}

abbrev gamma : Address
gamma = record {
  protocol = codes "akka";
  system = codes "sys";
  host = some (codes "c");
  port = some 3;
}

abbrev member : Address → MemberStatus → ℕ → Member
member a st n = record { address = a; up_number = pos n; status = st; roles = [] }

abbrev quiet : Reachability
quiet = record { records = record { entries = []; unique = tt } }

-- One member that joins, one that is up and one that was downed.
abbrev three : MembershipState
three = record {
  members =
      member alpha MemberStatus.joining 0
      ∷ member beta MemberStatus.up 1
      ∷ member gamma MemberStatus.down 2
      ∷ [];
  reachability = quiet;
}

three-IsValid : IsValid three
unfolding find text_beq
three-IsValid = record { distinct = (refl, (refl, (refl, tt))) }

clock-IsUnique : (m n : ℕ) → IsUnique ((codes "x", m) ∷ (codes "y", n) ∷ [])
unfolding lookup text_beq
clock-IsUnique m n = (refl, (refl, tt))

abbrev clock : ℕ → ℕ → VectorClock
clock m n = record {
  versions = record { entries = (codes "x", m) ∷ (codes "y", n) ∷ []; unique = clock-IsUnique m n };
}

-- `beta` alone.
abbrev one : MembershipState
one = record { members = member beta MemberStatus.up 1 ∷ []; reachability = quiet }

one-IsValid : IsValid one
unfolding find text_beq
one-IsValid = record { distinct = (refl, tt) }
