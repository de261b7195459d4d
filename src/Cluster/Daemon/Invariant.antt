-- ===== src/Cluster/Daemon/Invariant.antt =====
-- The daemon never lists an address twice, whatever commands, gossip and ticks it handles.
use atomr.Base.{
  ℕ, ◌≡◌, refl, Option, none, some, List, [], ◌∷◌, arith, inl, inr, Option-cases, Text, Bool-cases,
  ◌==◌, text_eq, option_eq, if◌then◌else◌, Bool, true, false, sym, subst,
}
use atomr.Core.Address.{Address, address_eq}
use atomr.Keyed.{find, replace}
use atomr.Keyed.Unique.{Distinct, replace_by-Distinct}
use atomr.Cluster.Member.{Member, MemberStatus, ClusterEvent}
use atomr.Cluster.Leader.{elect_leader}
use atomr.Cluster.Membership.{
  MembershipState, address, join, leave, down, add_or_update, apply_leader_actions,
}
use atomr.Cluster.Membership
use atomr.Cluster.Membership.Addresses.{
  IsValid, call-IsValid, adds, joins, leaves, downs, leader_acts,
}
use atomr.Cluster.SbrRuntime.{SbrRuntime, SbrAction}
use atomr.Cluster.SbrRuntime
use atomr.Cluster.Gossip.{GossipPdu, status, envelope, merge_request, add_all}
use atomr.Cluster.Daemon.{
  Daemon, DaemonCmd, cmd_join, cmd_leave, cmd_down, apply_gossip, cmd_tick, display, mark_down,
  down_all, apply_action, resolve, lead, note_leader, disseminate, do_tick, announce, handle_pdu,
  handle, start, bump, is_empty,
}

add_all-IsValid : (s : MembershipState) (ms : List Member) → IsValid s → IsValid (add_all s ms)
unfolding add_all
add_all-IsValid s [] v = v
add_all-IsValid s (m ∷ ms) v = add_all-IsValid (add_or_update s m) ms (call-IsValid s (adds m) v)

mark_down-Distinct :
    (ms : List Member) (addrs : List Text)
    → Distinct address ms
    → Distinct address (mark_down ms addrs)
unfolding mark_down
mark_down-Distinct ms [] d = d
mark_down-Distinct ms (a ∷ addrs) d = elim (Option-cases (find display ms a)) [
  | inl e ↦ rw (e, mark_down) (mark_down-Distinct ms addrs d)
  | inr (m, e) ↦
      let m' = record m { status = MemberStatus.down } in
      rw (e, mark_down)
        (mark_down-Distinct (replace display ms a m') addrs
          (replace_by-Distinct address display ms a m m' e refl d))
]

apply_action-IsValid :
    (d : Daemon) (a : SbrAction) → IsValid d.state → IsValid (apply_action d a).state
unfolding apply_action down_all bump
apply_action-IsValid d SbrAction.no_action v = v
apply_action-IsValid d SbrAction.down_self v = v
apply_action-IsValid d (SbrAction.down_unreachable addrs) v = record {
  distinct = mark_down-Distinct d.state.members addrs v.distinct;
}
apply_action-IsValid d (SbrAction.down_all addrs) v = record {
  distinct = mark_down-Distinct d.state.members addrs v.distinct;
}

resolve-IsValid : (d : Daemon) (now : ℕ) → IsValid d.state → IsValid (resolve d now).state
unfolding resolve
resolve-IsValid d now v = go d.sbr refl
  where
    go : (o : Option SbrRuntime) → d.sbr ≡ o → IsValid (resolve d now).state
    go none e = rw (e, resolve) v
    go (some rt) e =
        rw (e, resolve)
          (let (rt', action, _) = SbrRuntime.tick rt d.state now in
            apply_action-IsValid (record d { sbr = some rt' }) action v)

lead-IsValid : (d : Daemon) → IsValid d.state → IsValid (lead d).0.state
unfolding lead bump
lead-IsValid d v = go (is_empty (apply_leader_actions d.state).1)
  where
    s : MembershipState
    s = (apply_leader_actions d.state).0

    go :
        (b : Bool)
        → IsValid (if b then record d { state = s } else bump (record d { state = s })).state
    go true = call-IsValid d.state leader_acts v
    go false = call-IsValid d.state leader_acts v

state-note_leader : (d : Daemon) → (note_leader d).0.state ≡ d.state
unfolding note_leader
state-note_leader d = elim (Bool-cases (elect_leader d.state == d.last_leader)) [
  | inl e ↦ rw e
  | inr e ↦ rw e
]

state-disseminate : (d : Daemon) → (disseminate d).0.state ≡ d.state
unfolding disseminate
state-disseminate d = ground arith

do_tick-IsValid : (d : Daemon) (now : ℕ) → IsValid d.state → IsValid (do_tick d now).0.state
unfolding do_tick
do_tick-IsValid d now v =
    let d1 = (lead d).0 in
    let d2 = (note_leader d1).0 in
    let v2 : IsValid d2.state = subst IsValid (sym (state-note_leader d1)) (lead-IsValid d v) in
    subst IsValid (sym (state-disseminate (resolve d2 now))) (resolve-IsValid d2 now v2)

announce-state :
    (d : Daemon) (r : MembershipState × Option ClusterEvent) → (announce d r).0.state ≡ r.0
unfolding announce bump
announce-state d (s, none) = refl
announce-state d (s, some evt) = refl

handle_pdu-IsValid :
    (d : Daemon) (pdu : GossipPdu) → IsValid d.state → IsValid (handle_pdu d pdu).0.state
unfolding handle_pdu
handle_pdu-IsValid d (status from their) v = subst IsValid (ground arith) v
handle_pdu-IsValid d (envelope from their s) v = add_all-IsValid d.state s.members v
handle_pdu-IsValid d (merge_request from their) v = v

handle-IsValid : (d : Daemon) (c : DaemonCmd) → IsValid d.state → IsValid (handle d c).0.state
unfolding handle
handle-IsValid d (cmd_join m) v = unfold bump in call-IsValid d.state (joins m) v
handle-IsValid d (cmd_leave a) v =
    subst IsValid (sym (announce-state d (leave d.state a))) (call-IsValid d.state (leaves a) v)
handle-IsValid d (cmd_down a) v =
    subst IsValid (sym (announce-state d (down d.state a))) (call-IsValid d.state (downs a) v)
handle-IsValid d (apply_gossip pdu) v = handle_pdu-IsValid d pdu v
handle-IsValid d (cmd_tick now) v = do_tick-IsValid d now v

unfoldable pub run : Daemon → List DaemonCmd → Daemon
run d [] = d
run d (c ∷ cs) = run (handle d c).0 cs

run-IsValid_from : (d : Daemon) (cs : List DaemonCmd) → IsValid d.state → IsValid (run d cs).state
unfolding run
run-IsValid_from d [] v = v
run-IsValid_from d (c ∷ cs) v = run-IsValid_from (handle d c).0 cs (handle-IsValid d c v)

-- A daemon that starts empty never lists an address twice, whatever joins, leaves, downings, ticks
-- and gossip of its peers it handles, with or without a split-brain resolver.
pub run-IsValid :
    (self_addr : Address) (sbr : Option SbrRuntime) (cs : List DaemonCmd)
    → IsValid (run (start self_addr sbr) cs).state
run-IsValid self_addr sbr cs =
    run-IsValid_from (start self_addr sbr) cs
      (unfold start in record { distinct = unfold Membership.new in tt })
