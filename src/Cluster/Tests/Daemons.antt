-- ===== src/Cluster/Tests/Daemons.antt =====
-- Gossip and the daemon at concrete exchanges.
use atomr.Cluster.HeartbeatSender.{HeartbeatSender}
use atomr.Base.{
  arith, subst, ◌≡◌, refl, none, some, [], ◌∷◌, codes, text_eq, text_beq, pair_eq, option_eq,
  nat_eq,
}
use atomr.Core.Address.{Address, address_eq}
use atomr.Core.Address.Parse.RoundTrip.{IsReadable}
use atomr.Keyed.{find}
use atomr.Keyed.Unique.{or_else}
use atomr.Map.{get, empty, insert, lookup, set, keys, collect}
use atomr.Cluster.Member.{MemberStatus}
use atomr.Cluster.VectorClock.{VectorClock, before, version_of, compare}
use atomr.Cluster.Membership.{MembershipState, address}
use atomr.Cluster.Membership.Addresses.{IsValid}
use atomr.Cluster.Sbr.{keep_majority}
use atomr.Cluster.SbrRuntime.{SbrRuntime, sides, no_action}
use atomr.Cluster.SbrRuntime
use atomr.Cluster.Gossip.{Gossip, status, envelope, merge_request}
use atomr.Cluster.Gossip
use atomr.Cluster.Gossip.Merge.{merge_lem}
use atomr.Cluster.Daemon.{Daemon, start, handle_pdu, cmd_join, cmd_tick, apply_gossip}
use atomr.Cluster.Daemon.Invariant
use atomr.Cluster.Daemon.Invariant.{run-IsValid}
use atomr.Cluster.Daemon.Exchange.{my_status, receive, pull_catches_up}
use atomr.Cluster.VectorClock.Order.{Relates, compare-Relates}
use atomr.Cluster.Tests.{alpha, beta, member, quiet, three, three-IsValid, clock, one, one-IsValid}

abbrev gossip_three : Gossip
gossip_three = record { version = clock 1 0; state = three }

abbrev gossip_one : Gossip
gossip_one = record { version = clock 0 1; state = one }

merge_lem_example :
    (get (Gossip.merge gossip_three gossip_one).state.reachability.records (alpha, beta)
      ≡ or_else (get quiet.records (alpha, beta)) (get quiet.records (alpha, beta)))
    × (find address (Gossip.merge gossip_three gossip_one).state.members beta
        ≡ or_else (find address one.members beta) (find address three.members beta))
merge_lem_example = merge_lem gossip_three gossip_one alpha beta three-IsValid one-IsValid

abbrev resolver : SbrRuntime
resolver = SbrRuntime.new keep_majority 5

run-IsValid_example :
    IsValid
      (Invariant.run (start alpha (some resolver)) (
        cmd_join (member alpha MemberStatus.joining 0)
        ∷ apply_gossip (envelope (codes "b") (clock 0 1) three)
        ∷ cmd_tick 3
        ∷ [])).state
run-IsValid_example = run-IsValid alpha (some resolver) (
    cmd_join (member alpha MemberStatus.joining 0)
    ∷ apply_gossip (envelope (codes "b") (clock 0 1) three)
    ∷ cmd_tick 3
    ∷ [])

abbrev daemon : Address → VectorClock → MembershipState → Daemon
daemon a v s = record {
  self_addr = a;
  state = s;
  version = v;
  last_leader = none;
  cursor = 0;
  sbr = none;
}

behind-compare : compare (clock 1 1) (clock 1 2) ≡ before
unfolding compare version_of get lookup text_beq keys collect insert empty set
behind-compare = refl

behind : Relates before (clock 1 1) (clock 1 2)
behind =
    subst (λ r. Relates r (clock 1 1) (clock 1 2)) behind-compare
      (compare-Relates (clock 1 1) (clock 1 2))

alpha-IsReadable : IsReadable alpha
alpha-IsReadable = ground arith

beta-IsReadable : IsReadable beta
beta-IsReadable = ground arith

pull_catches_up_example :
    let a = daemon alpha (clock 1 1) three in
    let b = daemon beta (clock 1 2) one in
    let asked = handle_pdu a (my_status b) in
    let answered = receive b asked.1 in
    let end = receive asked.0 answered.1 in
    (answered.0 ≡ b)
    × (end.1 ≡ [])
    × (version_of end.0.version (codes "y") ≡ version_of (clock 1 2) (codes "y"))
    × (find address end.0.state.members beta
        ≡ or_else (find address one.members beta) (find address three.members beta))
pull_catches_up_example =
    pull_catches_up (daemon alpha (clock 1 1) three) (daemon beta (clock 1 2) one) (codes "y") beta
      behind.0 behind.1 alpha-IsReadable beta-IsReadable one-IsValid.distinct

-- `alpha` knows `beta` as `Leaving`, and hears that it is `Up`.
abbrev leaving_one : MembershipState
leaving_one = record { members = member beta MemberStatus.leaving 1 ∷ []; reachability = quiet }

abbrev sender : HeartbeatSender
sender = record { interval = 10; peers = record { entries = []; unique = tt } }
