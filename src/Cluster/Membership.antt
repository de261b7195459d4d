-- ===== src/Cluster/Membership.antt =====
-- crates/atomr-cluster/src/membership.rs, with `next_status` and `is_converged` of leader.rs.
pub mod Addresses
pub mod LeaderActions
pub mod Lifecycle
use atomr.Base.{
  ℕ, Bool, true, false, not, Option, none, some, List, [], ◌∷◌, ◌++◌, Eq, ◌==◌, ◌&&◌, if◌then◌else◌,
  length,
}
use atomr.Core.Address.{Address, address_eq}
use atomr.Cluster.Member.{
  MemberStatus, Member, ClusterEvent, member_joined, member_up, member_left, member_exited,
  member_downed, member_removed, convergence, is_removed,
}
use atomr.Cluster.Reachability.{Reachability, is_reachable}
use atomr.Cluster.Reachability
use atomr.Keyed.{find, replace, upsert, retain}

pub record MembershipState : Type 0 where
  pub members : List Member
  pub reachability : Reachability

unfoldable pub new : MembershipState
new = record { members = []; reachability = Reachability.new }

abbrev pub address : Member → Address
address m = m.address

unfoldable pub add_or_update : MembershipState → Member → MembershipState
unfolding upsert
add_or_update s m = record s { members = upsert address s.members m }

unfoldable pub remove : MembershipState → Address → MembershipState
unfolding retain
remove s addr = record s { members = retain (λ m. not (m.address == addr)) s.members }

unfoldable pub next_status : MemberStatus → Bool → Option MemberStatus
next_status MemberStatus.joining true = some MemberStatus.up
next_status MemberStatus.leaving true = some MemberStatus.exiting
next_status MemberStatus.exiting true = some MemberStatus.removed
next_status MemberStatus.down _ = some MemberStatus.removed
next_status _ _ = none

-- `Down` and `Removed` members do not block convergence.
unfoldable pub settled : Reachability → Member → Bool
settled r m = elim m.status [
  | MemberStatus.down ↦ true
  | MemberStatus.removed ↦ true
  | _ ↦ is_reachable r m.address
]

all_settled : Reachability → List Member → Bool
all_settled r [] = true
all_settled r (m ∷ ms) = settled r m && all_settled r ms

unfoldable pub is_converged : MembershipState → Bool
unfolding all_settled
is_converged s = all_settled s.reachability s.members

-- The first pass of `apply_leader_actions`.
transitions : List Member → Bool → List (Address × MemberStatus)
unfolding next_status
transitions [] converged = []
transitions (m ∷ ms) converged =
    let rest = transitions ms converged in
    elim (next_status m.status converged) [ some next ↦ (m.address, next) ∷ rest | none ↦ rest ]

-- The event of a transition; `_ => continue` emits none.
event_of : Member → MemberStatus → List ClusterEvent
event_of updated prev = elim updated.status [
  | MemberStatus.up ↦ member_up updated ∷ []
  | MemberStatus.exiting ↦ member_exited updated ∷ []
  | MemberStatus.removed ↦ member_removed updated prev ∷ []
  | _ ↦ []
]

-- The second pass: set each status, and collect the events.
apply_transitions :
    List (Address × MemberStatus)
    → List Member
    → List ClusterEvent
    → List Member × List ClusterEvent
unfolding find replace event_of
apply_transitions [] ms events = (ms, events)
apply_transitions ((addr, next) ∷ ts) ms events = elim (find address ms addr) [
  | none ↦ apply_transitions ts ms events
  | some m ↦
      let updated = record m { status = next } in
      apply_transitions ts (replace address ms addr updated) (events ++ event_of updated m.status)
]

unfoldable pub apply_leader_actions : MembershipState → MembershipState × List ClusterEvent
unfolding is_converged transitions apply_transitions retain
apply_leader_actions s =
    let converged = is_converged s in
    let (ms, events) = apply_transitions (transitions s.members converged) s.members [] in
    (
      record s { members = retain (λ m. not (is_removed m.status)) ms },
      (if converged then events ++ convergence true ∷ [] else events),
    )

unfoldable pub join : MembershipState → Member → MembershipState × ClusterEvent
unfolding add_or_update
join s m = (add_or_update s m, member_joined m)

abbrev pub may_leave : MemberStatus → Bool
may_leave MemberStatus.up = true
may_leave MemberStatus.weakly_up = true
may_leave _ = false

abbrev pub may_down : MemberStatus → Bool
may_down MemberStatus.up = true
may_down MemberStatus.weakly_up = true
may_down MemberStatus.leaving = true
may_down _ = false

-- `m.status = next` where the guard allows it, with the event.
pub move :
    MembershipState
    → Address
    → (MemberStatus → Bool)
    → MemberStatus
    → (Member → ClusterEvent)
    → MembershipState × Option ClusterEvent
unfolding find replace
move s addr allowed next event = elim (find address s.members addr) [
  | none ↦ (s, none)
  | some m ↦
      let updated = record m { status = next } in
      if allowed m.status
      then (record s { members = replace address s.members addr updated }, some (event updated))
      else (s, none)
]

unfoldable pub leave : MembershipState → Address → MembershipState × Option ClusterEvent
unfolding move
leave s addr = move s addr may_leave MemberStatus.leaving member_left

unfoldable pub down : MembershipState → Address → MembershipState × Option ClusterEvent
unfolding move
down s addr = move s addr may_down MemberStatus.down member_downed
