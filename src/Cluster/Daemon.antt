-- ===== src/Cluster/Daemon.antt =====
-- crates/atomr-cluster/src/cluster_daemon.rs: the state of `run_daemon` and its commands. What the
-- daemon publishes on its bus and sends by its transport is returned in order.
pub mod Invariant
pub mod Exchange
use atomr.Base.{
  ℕ, ◌+◌, ◌%◌, Bool, true, false, not, Option, none, some, List, [], ◌∷◌, ◌++◌, map, Eq, ◌==◌,
  option_eq, text_eq, if◌then◌else◌, Text, u64_mod,
}
use atomr.Core.Address.{Address, address_eq, to_string}
use atomr.Core.Address.Parse.{parse}
use atomr.Keyed.{find, replace}
use atomr.Cluster.VectorClock.{VectorClock}
use atomr.Cluster.VectorClock
use atomr.Cluster.Member.{Member, MemberStatus, ClusterEvent, leader_changed}
use atomr.Cluster.Membership.{
  MembershipState, add_or_update, apply_leader_actions, join, leave, down,
}
use atomr.Cluster.Membership
use atomr.Cluster.Leader.{elect_leader}
use atomr.Cluster.SbrRuntime.{SbrRuntime, SbrAction, Notice}
use atomr.Cluster.SbrRuntime
use atomr.Cluster.Gossip.{
  GossipPdu, status, envelope, merge_request, GossipDecision, decide, pick_gossip_target, add_all,
}

pub record Daemon : Type 0 where
  pub self_addr : Address
  pub state : MembershipState
  pub version : VectorClock
  pub last_leader : Option Address
  pub cursor : ℕ
  pub sbr : Option SbrRuntime

unfoldable pub start : Address → Option SbrRuntime → Daemon
start self_addr sbr = record {
  self_addr = self_addr;
  state = Membership.new;
  version = VectorClock.new;
  last_leader = none;
  cursor = 0;
  sbr = sbr;
}

pub data Effect : Type 0 where
  publish : ClusterEvent → Effect
  send : Address → GossipPdu → Effect

pub data DaemonCmd : Type 0 where
  cmd_join : Member → DaemonCmd
  cmd_leave cmd_down : Address → DaemonCmd
  apply_gossip : GossipPdu → DaemonCmd
  -- the command and the interval's tick, with the clock's reading
  cmd_tick : ℕ → DaemonCmd

-- `version.tick(self_addr.to_string())`
unfoldable pub bump : Daemon → Daemon
bump d = record d { version = VectorClock.tick d.version (to_string d.self_addr) }

-- `Leave` and `Down`: only a transition bumps the version and is published.
announce : Daemon → MembershipState × Option ClusterEvent → Daemon × List Effect
unfolding bump
announce d (s, none) = (record d { state = s }, [])
announce d (s, some evt) = (bump (record d { state = s }), publish evt ∷ [])

is_empty {ℓ} : {A : Type ℓ} → List A → Bool
is_empty [] = true
is_empty (x ∷ l) = false

-- Phase 1 of `do_tick`.
lead : Daemon → Daemon × List Effect
unfolding bump is_empty
lead d =
    let (s, evts) = apply_leader_actions d.state in
    let d' = record d { state = s } in ((if is_empty evts then d' else bump d'), map publish evts)

-- Phase 2.
note_leader : Daemon → Daemon × List Effect
note_leader d =
    let leader_now = elect_leader d.state in
    if leader_now == d.last_leader then (d, []) else (
      record d { last_leader = leader_now },
      publish (leader_changed d.last_leader leader_now) ∷ [],
    )

abbrev pub display : Member → Text
display m = to_string m.address

mark_down : List Member → List Text → List Member
mark_down ms [] = ms
mark_down ms (a ∷ addrs) = elim (find display ms a) [
  | none ↦ mark_down ms addrs
  | some m ↦ mark_down (replace display ms a (record m { status = MemberStatus.down })) addrs
]

down_all : Daemon → List Text → Daemon
unfolding mark_down bump
down_all d addrs =
    bump (record d { state = record d.state { members = mark_down d.state.members addrs } })

apply_action : Daemon → SbrAction → Daemon
unfolding down_all
apply_action d SbrAction.no_action = d
apply_action d SbrAction.down_self = d
apply_action d (SbrAction.down_unreachable addrs) = down_all d addrs
apply_action d (SbrAction.down_all addrs) = down_all d addrs

-- Phase 3; the calls of the quorum observer are those of `SbrRuntime.tick`.
resolve : Daemon → ℕ → Daemon
unfolding apply_action
resolve d now = elim d.sbr [
  | none ↦ d
  | some rt ↦
      let (rt', action, _) = SbrRuntime.tick rt d.state now in
      apply_action (record d { sbr = some rt' }) action
]

-- Phase 4.
disseminate : Daemon → Daemon × List Effect
disseminate d =
    elim (pick_gossip_target (map (λ (m : Member). m.address) d.state.members) d.self_addr
      d.cursor) [
        | none ↦ (d, [])
        | some target ↦ (
          record d { cursor = (d.cursor + 1) % u64_mod },
          send target (status (to_string d.self_addr) d.version) ∷ [],
        )
      ]

unfoldable pub do_tick : Daemon → ℕ → Daemon × List Effect
unfolding lead note_leader resolve disseminate
do_tick d now =
    let (d1, e1) = lead d in
    let (d2, e2) = note_leader d1 in
    let (d3, e3) = disseminate (resolve d2 now) in (d3, e1 ++ (e2 ++ e3))

-- A reply to the address that a PDU names, if it can be read.
reply : Text → GossipPdu → List Effect
reply from pdu = elim (parse from) [ some t ↦ send t pdu ∷ [] | none ↦ [] ]

abbrev pub my_envelope : Daemon → GossipPdu
my_envelope d = envelope (to_string d.self_addr) d.version d.state

unfoldable pub handle_pdu : Daemon → GossipPdu → Daemon × List Effect
unfolding reply
handle_pdu d (status from their) = elim (decide d.version their) [
  | GossipDecision.send_envelope ↦ (d, reply from (my_envelope d))
  | GossipDecision.merge_both ↦ (d, reply from (my_envelope d))
  | GossipDecision.request_merge ↦ (d, reply from (merge_request (to_string d.self_addr) d.version))
  | GossipDecision.same ↦ (d, [])
]
handle_pdu d (envelope from their their_state) = (
  record d {
    state = add_all d.state their_state.members;
    version = VectorClock.merge d.version their;
  },
  [],
)
handle_pdu d (merge_request from _) = (d, reply from (my_envelope d))

unfoldable pub handle : Daemon → DaemonCmd → Daemon × List Effect
unfolding announce bump do_tick handle_pdu
handle d (cmd_join m) =
    let (s, evt) = join d.state m in (bump (record d { state = s }), publish evt ∷ [])
handle d (cmd_leave addr) = announce d (leave d.state addr)
handle d (cmd_down addr) = announce d (down d.state addr)
handle d (apply_gossip pdu) = handle_pdu d pdu
handle d (cmd_tick now) = do_tick d now

pub record DaemonSnapshot : Type 0 where
  pub state : MembershipState
  pub leader : Option Address
  pub version : VectorClock

-- What is published after each command and tick.
unfoldable pub snapshot : Daemon → DaemonSnapshot
snapshot d = record { state = d.state; leader = elect_leader d.state; version = d.version }
