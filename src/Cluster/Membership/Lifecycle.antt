-- ===== src/Cluster/Membership/Lifecycle.antt =====
-- What becomes of one member: the life cycle from `Joining` to removal.
use atomr.Base.{
  ◌≡◌, refl, Bool, true, false, not, Option, none, some, map, arith, if◌then◌else◌, ◌∙◌, ap,
  beq_refl,
}
use mathlib.Core.Option
use atomr.Core.Address.{Address, address_eq}
use atomr.Keyed.{find, replace}
use atomr.Keyed.Unique.{find-retain, find-replace, key-find, kept, find-map, map-Distinct}
use atomr.Cluster.Member.{
  Member, MemberStatus, is_removed, ClusterEvent, member_left, member_downed,
}
use atomr.Cluster.Membership.{
  MembershipState, address, next_status, is_converged, apply_leader_actions, leave, down, move,
  may_down, may_leave,
}
use atomr.Cluster.Membership.Addresses.{
  IsValid, move_cases, call-IsValid, downs, leaves, leader_acts,
}
use atomr.Cluster.Membership.LeaderActions.{advance, spec_members, apply_leader_actions_lem}

-- What the members hold at an address, in status.
abbrev pub status_at : MembershipState → Address → Option MemberStatus
status_at s a = Option.map (λ (m : Member). m.status) (find address s.members a)

-- The status after a leader's tick, `none` for a member that is gone.
abbrev pub after_tick : Bool → Option MemberStatus → Option MemberStatus
after_tick converged none = none
after_tick true (some MemberStatus.joining) = some MemberStatus.up
after_tick true (some MemberStatus.leaving) = some MemberStatus.exiting
after_tick true (some MemberStatus.exiting) = none
after_tick converged (some MemberStatus.down) = none
after_tick converged (some MemberStatus.removed) = none
after_tick converged (some st) = some st

advance-address : (c : Bool) (m : Member) → (advance c m).address ≡ m.address
unfolding advance
advance-address c m = ground arith

abbrev status_of : Option Member → Option MemberStatus
status_of o = Option.map (λ (m : Member). m.status) o

after_tick-kept :
    (c : Bool) (o : Option Member)
    → status_of (kept (λ m. not (is_removed m.status)) (Option.map (advance c) o))
      ≡ after_tick c (status_of o)
unfolding advance next_status
after_tick-kept c none = refl
after_tick-kept c (some m) = ground arith

-- A leader's tick moves each member by `after_tick`, and touches no member twice: the status at
-- every address is that of the tick's table, whatever the other members are.
pub status_at-apply_leader_actions :
    (s : MembershipState) (a : Address)
    → IsValid s
    → status_at (apply_leader_actions s).0 a ≡ after_tick (is_converged s) (status_at s a)
status_at-apply_leader_actions s a v = rw (apply_leader_actions_lem s v) (
    unfold spec_members in
    rw
      (find-retain address (λ m. not (is_removed m.status)) (map (advance c) s.members) a
        (map-Distinct address (advance c) s.members (advance-address c) v.distinct))
      (rw (find-map address (advance c) s.members a (advance-address c))
        (after_tick-kept c (find address s.members a))))
  where
    c : Bool
    c = is_converged s

abbrev after_move : (MemberStatus → Bool) → MemberStatus → Option MemberStatus → Option MemberStatus
after_move allowed next none = none
after_move allowed next (some st) = if allowed st then some next else some st

status_at-move :
    (s : MembershipState) (a : Address) (allowed : MemberStatus → Bool) (next : MemberStatus)
    (event : Member → ClusterEvent)
    → status_at (move s a allowed next event).0 a ≡ after_move allowed next (status_at s a)
status_at-move s a allowed next event =
    move_cases (λ r. status_at r.0 a ≡ after_move allowed next (status_at s a)) s a allowed next
      event (λ e. rw e) (λ m e n. rw e (rw n)) moved
  where
    moved :
        (m : Member)
        → find address s.members a ≡ some m
        → allowed m.status ≡ true
        → status_of (find address (replace address s.members a (record m { status = next })) a)
          ≡ after_move allowed next (status_at s a)
    moved m e y =
        rw
          (
            find-replace address s.members a a (record m { status = next })
                (key-find address s.members a m e),
            beq_refl a,
            e,
            y,
          )
          refl

-- A member that is `Up`, `WeaklyUp` or `Leaving` and is downed is gone after the next leader's
-- tick, converged or not.
pub down_then_gone :
    (s : MembershipState) (a : Address) (st : MemberStatus)
    → IsValid s
    → status_at s a ≡ some st
    → may_down st ≡ true
    → status_at (apply_leader_actions (down s a).0).0 a ≡ none
down_then_gone s a st v e y =
    status_at-apply_leader_actions (down s a).0 a (call-IsValid s (downs a) v)
    ∙ ap (after_tick (is_converged (down s a).0)) downed
    ∙ after_tick_down (is_converged (down s a).0)
  where
    downed : status_at (down s a).0 a ≡ some MemberStatus.down
    downed =
        unfold down in (status_at-move s a may_down MemberStatus.down member_downed ∙ rw (e, y))

    after_tick_down : (c : Bool) → after_tick c (some MemberStatus.down) ≡ none
    after_tick_down true = refl
    after_tick_down false = refl

-- An `Up` member that leaves is `Leaving`, then `Exiting` after a converged leader's tick, and gone
-- after a second one.
pub graceful_leave :
    (s : MembershipState) (a : Address)
    → IsValid s
    → status_at s a ≡ some MemberStatus.up
    → is_converged (leave s a).0 ≡ true
    → is_converged (apply_leader_actions (leave s a).0).0 ≡ true
    → let s1 = (leave s a).0 in
      let s2 = (apply_leader_actions s1).0 in
      (status_at s1 a ≡ some MemberStatus.leaving)
      × (status_at s2 a ≡ some MemberStatus.exiting)
      × (status_at (apply_leader_actions s2).0 a ≡ none)
graceful_leave s a v e c1 c2 = (left, exited, gone)
  where
    s1 : MembershipState
    s1 = (leave s a).0

    s2 : MembershipState
    s2 = (apply_leader_actions s1).0

    v1 : IsValid s1
    v1 = call-IsValid s (leaves a) v

    left : status_at s1 a ≡ some MemberStatus.leaving
    left = unfold leave in (status_at-move s a may_leave MemberStatus.leaving member_left ∙ rw e)

    exited : status_at s2 a ≡ some MemberStatus.exiting
    exited = status_at-apply_leader_actions s1 a v1 ∙ rw (c1, left)

    gone : status_at (apply_leader_actions s2).0 a ≡ none
    gone = status_at-apply_leader_actions s2 a (call-IsValid s1 leader_acts v1) ∙ rw (c2, exited)
