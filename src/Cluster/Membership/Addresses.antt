-- ===== src/Cluster/Membership/Addresses.antt =====
-- No address stands twice in the member list, and every operation keeps it so.
use atomr.Base.{
  ◌≡◌, Bool, not, Option, none, some, List, [], ◌∷◌, true, false, Option-cases, Bool-cases, inl,
  inr, ◌==◌,
}
use atomr.Core.Address.{Address, address_eq}
use atomr.Keyed.{find, replace}
use atomr.Keyed.Unique.{Distinct, key-find, replace-Distinct, upsert-Distinct, retain-Distinct}
use atomr.Cluster.Member.{
  Member, MemberStatus, ClusterEvent, member_left, member_downed, is_removed,
}
use atomr.Cluster.Membership.{
  MembershipState, address, add_or_update, remove, join, leave, down, move, apply_transitions,
  apply_leader_actions, may_leave, may_down, transitions, is_converged,
}

pub record IsValid (s : MembershipState) : Type 0 where
  pub distinct : Distinct address s.members

-- Overwriting the member found at an address by one with another status.
set_status-Distinct :
    (ms : List Member) (a : Address) (m : Member) (next : MemberStatus)
    → find address ms a ≡ some m
    → Distinct address ms
    → Distinct address (replace address ms a (record m { status = next }))
set_status-Distinct ms a m next f d =
    replace-Distinct address ms a (record m { status = next }) (key-find address ms a m f) d

-- The three ways in which `leave` and `down` end.
pub move_cases {ℓ} :
    (P : MembershipState × Option ClusterEvent → Type ℓ) (s : MembershipState) (a : Address)
    (allowed : MemberStatus → Bool) (next : MemberStatus) (event : Member → ClusterEvent)
    → (find address s.members a ≡ none → P (s, none))
    → ((m : Member) → find address s.members a ≡ some m → allowed m.status ≡ false → P (s, none))
    → ((m : Member)
        → find address s.members a ≡ some m
        → allowed m.status ≡ true
        → P (
          record s { members = replace address s.members a (record m { status = next }) },
          some (event (record m { status = next })),
        ))
    → P (move s a allowed next event)
unfolding move
move_cases P s a allowed next event missing refused moved =
    elim (Option-cases (find address s.members a)) [
      | inl e ↦ rw (e, move) (missing e)
      | inr (m, e) ↦ elim (Bool-cases (allowed m.status)) [
        | inl y ↦ rw (e, y, move) (moved m e y)
        | inr n ↦ rw (e, n, move) (refused m e n)
      ]
    ]

move-IsValid :
    (s : MembershipState) (a : Address) (allowed : MemberStatus → Bool) (next : MemberStatus)
    (event : Member → ClusterEvent)
    → IsValid s
    → IsValid (move s a allowed next event).0
move-IsValid s a allowed next event v =
    move_cases (λ r. IsValid r.0) s a allowed next event (λ _. v) (λ _ _ _. v)
      λ m f _. record { distinct = set_status-Distinct s.members a m next f v.distinct }

apply_transitions-Distinct :
    (ts : List (Address × MemberStatus)) (ms : List Member) (events : List ClusterEvent)
    → Distinct address ms
    → Distinct address (apply_transitions ts ms events).0
unfolding apply_transitions
apply_transitions-Distinct [] ms events d = d
apply_transitions-Distinct ((a, next) ∷ ts) ms events d = elim (Option-cases (find address ms a)) [
  | inl e ↦ rw (e, apply_transitions) (apply_transitions-Distinct ts ms events d)
  | inr (m, e) ↦
      rw (e, apply_transitions)
        (apply_transitions-Distinct ts _ _ (set_status-Distinct ms a m next e d))
]

-- A call of the membership state's interface.
pub data Call : Type 0 where
  adds joins : Member → Call
  removes leaves downs : Address → Call
  leader_acts : Call

abbrev pub call : MembershipState → Call → MembershipState
call s (adds m) = add_or_update s m
call s (joins m) = (join s m).0
call s (removes a) = remove s a
call s (leaves a) = (leave s a).0
call s (downs a) = (down s a).0
call s leader_acts = (apply_leader_actions s).0

-- Every operation of the membership state keeps the addresses of its members distinct.
pub call-IsValid : (s : MembershipState) (c : Call) → IsValid s → IsValid (call s c)
unfolding add_or_update join remove leave down apply_leader_actions
call-IsValid s (adds m) v = record { distinct = upsert-Distinct address s.members m v.distinct }
call-IsValid s (joins m) v = record { distinct = upsert-Distinct address s.members m v.distinct }
call-IsValid s (removes a) v = record {
  distinct = retain-Distinct address (λ m. not (m.address == a)) s.members v.distinct;
}
call-IsValid s (leaves a) v = move-IsValid s a may_leave MemberStatus.leaving member_left v
call-IsValid s (downs a) v = move-IsValid s a may_down MemberStatus.down member_downed v
call-IsValid s leader_acts v =
    let ts = transitions s.members (is_converged s) in
    record {
      distinct =
          retain-Distinct address (λ m. not (is_removed m.status))
            (apply_transitions ts s.members []).0
            (apply_transitions-Distinct ts s.members [] v.distinct);
    }
