-- ===== src/Cluster/Membership/LeaderActions.antt =====
-- The leader's two passes against the transition of each member on its own.
use atomr.Base.{
  ◌≡◌, refl, Bool, true, not, none, some, List, [], ◌∷◌, ◌++◌, map, arith, if◌then◌else◌,
  Option-cases, Bool-cases, inl, inr, ◌∙◌,
}
use mathlib.Core.List.{append-nil, append_assoc}
use atomr.Core.Address.{address_eq}
use atomr.Keyed.{find, retain}
use atomr.Keyed.Unique.{Distinct, Apart, Apart-append_one, find-append_here, replace-append_here}
use atomr.Cluster.Member.{Member, ClusterEvent, convergence, is_removed}
use atomr.Cluster.Membership.{
  MembershipState, address, next_status, is_converged, transitions, event_of, apply_transitions,
  apply_leader_actions,
}
use atomr.Cluster.Membership.Addresses.{IsValid}

-- The next state of one member, and the events that it causes.
unfoldable pub advance : Bool → Member → Member
unfolding next_status
advance converged m = elim (next_status m.status converged) [
  | some next ↦ record m { status = next }
  | none ↦ m
]

announce : Bool → Member → List ClusterEvent
unfolding next_status event_of
announce converged m = elim (next_status m.status converged) [
  | some next ↦ event_of (record m { status = next }) m.status
  | none ↦ []
]

announce_all : Bool → List Member → List ClusterEvent
unfolding announce
announce_all converged [] = []
announce_all converged (m ∷ ms) = announce converged m ++ announce_all converged ms

-- The second pass over what the first pass found, where `done` is treated already.
apply_transitions-transitions :
    (converged : Bool) (done ms : List Member) (events : List ClusterEvent)
    → Distinct address ms
    → Apart address done ms
    → apply_transitions (transitions ms converged) (done ++ ms) events
      ≡ (done ++ map (advance converged) ms, events ++ announce_all converged ms)
unfolding transitions apply_transitions announce_all advance announce
apply_transitions-transitions converged done [] events d a = ground (arith, append-nil events)
apply_transitions-transitions converged done (m ∷ ms) events d a =
    elim (Option-cases (next_status m.status converged)) [
      | inl e ↦
          rw (e, transitions, advance, announce)
            (rw (← append_assoc done (m ∷ []) ms) (
              apply_transitions-transitions converged (done ++ m ∷ []) ms events d.1
                (Apart-append_one address done ms m.address m refl d.0 a.1)
              ∙ simp append_assoc))
      | inr (next, e) ↦
          let m' = record m { status = next } in
          let h =
            apply_transitions-transitions converged (done ++ m' ∷ []) ms
              (events ++ event_of m' m.status) d.1
              (Apart-append_one address done ms m.address m' refl d.0 a.1) in
          rw (e, transitions, advance, announce)
            (rw (find-append_here address done ms m a.0, apply_transitions)
              (rw (replace-append_here address done ms m m' a.0)
                (rw (← append_assoc done (m' ∷ []) ms) (h ∙ simp append_assoc))))
    ]

unfoldable pub spec_members : Bool → List Member → List Member
unfolding advance
spec_members converged ms = retain (λ m. not (is_removed m.status)) (map (advance converged) ms)

pub spec_events : Bool → List Member → List ClusterEvent
unfolding announce_all
spec_events converged ms =
    announce_all converged ms ++ (if converged then convergence true ∷ [] else [])

-- With distinct addresses, the leader's tick moves each member on its own by `next_status`, drops
-- those that are then removed, and publishes the members' events in order, with `Convergence` last
-- if the state has converged.
pub apply_leader_actions_lem :
    (s : MembershipState)
    → IsValid s
    → apply_leader_actions s ≡ (
      record s { members = spec_members (is_converged s) s.members },
      spec_events (is_converged s) s.members,
    )
unfolding apply_leader_actions spec_members spec_events
apply_leader_actions_lem s v =
    rw
      (apply_transitions-transitions (is_converged s) [] s.members [] v.distinct
        (Apart-nil s.members))
      (elim (Bool-cases (is_converged s)) [ inl e ↦ rw e | inr e ↦ rw e (simp append-nil) ])
  where
    Apart-nil : (ms : List Member) → Apart address [] ms
    Apart-nil [] = tt
    Apart-nil (m ∷ ms) = (unfold find in refl, Apart-nil ms)
