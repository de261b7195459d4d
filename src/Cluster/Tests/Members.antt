-- ===== src/Cluster/Tests/Members.antt =====
-- The vector clock, the reachability table and the member list at concrete states.
use atomr.Base.{◌≡◌, refl, List, [], ◌∷◌, text_eq, text_beq, pair_eq, option_eq, nat_eq}
use atomr.Core.Address.{Address, address_eq}
use atomr.Map.{lookup, IsUnique}
use atomr.Cluster.VectorClock.{compare}
use atomr.Cluster.VectorClock.Order.{Relates, compare-Relates}
use atomr.Cluster.Reachability.{Reachability, ReachabilityStatus, mark_unreachable, mark_terminated}
use atomr.Cluster.Reachability
use atomr.Cluster.Reachability.Status.{Judges, status-Judges}
use atomr.Cluster.Membership.{apply_leader_actions, is_converged}
use atomr.Cluster.Membership.LeaderActions.{spec_members, spec_events, apply_leader_actions_lem}
use atomr.Cluster.Membership.Lifecycle.{status_at, after_tick, status_at-apply_leader_actions}
use atomr.Cluster.Tests.{alpha, beta, gamma, three, three-IsValid, clock}

apply_leader_actions_lem_example : apply_leader_actions three ≡ (
  record three { members = spec_members (is_converged three) three.members },
  spec_events (is_converged three) three.members,
)
apply_leader_actions_lem_example = apply_leader_actions_lem three three-IsValid

compare-Relates_example : Relates (compare (clock 1 2) (clock 2 2)) (clock 1 2) (clock 2 2)
compare-Relates_example = compare-Relates (clock 1 2) (clock 2 2)

status_at-apply_leader_actions_example :
    status_at (apply_leader_actions three).0 alpha
    ≡ after_tick (is_converged three) (status_at three alpha)
status_at-apply_leader_actions_example = status_at-apply_leader_actions three alpha three-IsValid

abbrev suspicions : List ((Address × Address) × ReachabilityStatus)
suspicions =
    ((alpha, beta), ReachabilityStatus.unreachable)
    ∷ ((gamma, beta), ReachabilityStatus.terminated)
    ∷ []

suspicions-IsUnique : IsUnique suspicions
unfolding lookup text_beq
suspicions-IsUnique = (refl, (refl, tt))

abbrev suspected : Reachability
suspected = record { records = record { entries = suspicions; unique = suspicions-IsUnique } }

status-Judges_example : Judges (Reachability.status suspected beta) suspected beta
status-Judges_example = status-Judges suspected beta
