-- ===== src/Cluster/Tests/Partitions.antt =====
-- The leader election and the split-brain strategies at concrete partitions.
use atomr.Base.{
  none, leb_ℤ, pos, ℕ, ◌⊎◌, ◌≤◌, ◌-◌, ◌≡◌, refl, true, false, some, List, [], ◌∷◌, arith, text_eq,
  text_beq, inl, inr, pair_eq, option_eq, nat_eq,
}
use atomr.Core.Address.{Address, address_eq}
use atomr.Map.{lookup, IsUnique}
use atomr.Cluster.Member.{Member, MemberStatus}
use atomr.Cluster.Reachability.{Reachability, ReachabilityStatus, mark_unreachable, mark_terminated}
use atomr.Cluster.Reachability
use atomr.Cluster.Membership.{MembershipState}
use atomr.Cluster.Leader.{elect_leader}
use atomr.Cluster.Leader.Election.{Elects, Covers, elect_leader-Elects}
use atomr.Cluster.Sbr.{DowningDecision, static_quorum, keep_oldest}
use atomr.Cluster.Sbr.Survivors.{keeps, keep_oldest_lem}
use atomr.Cluster.SbrRuntime.{SbrRuntime, sides, no_action}
use atomr.Cluster.SbrRuntime
use atomr.Cluster.SbrRuntime.Stability.{Began, tick_acts}
use atomr.Cluster.SbrRuntime.Stability
use atomr.Cluster.SbrRuntime.Notices.{Alternates, run-Alternates}
use atomr.Cluster.SbrRuntime.Notices
use atomr.Cluster.Tests.{alpha, beta, gamma, member, quiet, three, one}

elect_leader-Elects_example : Elects (elect_leader three) three
elect_leader-Elects_example = elect_leader-Elects three

-- `three` in another order.
abbrev turned : MembershipState
turned = record {
  members =
      member gamma MemberStatus.down 2
      ∷ member beta MemberStatus.up 1
      ∷ member alpha MemberStatus.joining 0
      ∷ [];
  reachability = quiet;
}

three-Covers : Covers three turned
three-Covers m (inl e) y = (inr (inr (inl e)), y)
three-Covers m (inr (inl e)) y = (inr (inl e), y)
three-Covers m (inr (inr (inl e))) y = (inl e, y)
three-Covers m (inr (inr (inr x))) y = elim x [ ]

turned-Covers : Covers turned three
turned-Covers m (inl e) y = (inr (inr (inl e)), y)
turned-Covers m (inr (inl e)) y = (inr (inl e), y)
turned-Covers m (inr (inr (inl e))) y = (inl e, y)
turned-Covers m (inr (inr (inr x))) y = elim x [ ]

abbrev left_side : List Member
left_side = member alpha MemberStatus.up 1 ∷ member beta MemberStatus.up 2 ∷ []

abbrev right_side : List Member
right_side = member gamma MemberStatus.up 3 ∷ []

-- Members as `Member::new` numbers them.
abbrev zero_left : List Member
zero_left = member alpha MemberStatus.up 0 ∷ []

abbrev zero_right : List Member
zero_right = member beta MemberStatus.up 0 ∷ []

keep_oldest_lem_example :
    ((pos 0 ≡ pos 0)
      × (keep_oldest true zero_left zero_right ≡ keeps true zero_left)
      × (keep_oldest true zero_right zero_left ≡ keeps true zero_right))
    ⊎ ((leb_ℤ (pos 0) (pos 0) ≡ false)
        × (keep_oldest true zero_left zero_right ≡ keeps true zero_left)
        × (keep_oldest true zero_right zero_left ≡ DowningDecision.down_self))
    ⊎ ((leb_ℤ (pos 0) (pos 0) ≡ false)
        × (keep_oldest true zero_left zero_right ≡ DowningDecision.down_self)
        × (keep_oldest true zero_right zero_left ≡ keeps true zero_right))
keep_oldest_lem_example =
    keep_oldest_lem true zero_left zero_right (member alpha MemberStatus.up 0)
      (member beta MemberStatus.up 0) (inl refl, (refl, tt)) (inl refl, (refl, tt))

split-IsUnique :
    IsUnique {K = Address × Address} (((alpha, gamma), ReachabilityStatus.unreachable) ∷ [])
unfolding lookup
split-IsUnique = (refl, tt)

-- `gamma` cannot be reached by `alpha`, who waits 5 before it acts.
abbrev split : MembershipState
split = record {
  members =
      member alpha MemberStatus.up 1
      ∷ member beta MemberStatus.up 2
      ∷ member gamma MemberStatus.up 3
      ∷ [];
  reachability = record {
    records = record {
      entries = ((alpha, gamma), ReachabilityStatus.unreachable) ∷ [];
      unique = split-IsUnique;
    };
  };
}

abbrev resolver : SbrRuntime
resolver = record {
  strategy = static_quorum 2;
  stable_after = 5;
  unstable_since = some 10;
  observer = true;
  quorum_is_lost = false;
}

abbrev calm_resolver : SbrRuntime
calm_resolver = record resolver { unstable_since = none }

tick_acts_example : (t : ℕ) × Began t ((split, 20) ∷ (split, 10) ∷ (one, 5) ∷ []) × (5 ≤ 20 - t)
unfolding Stability.run SbrRuntime.tick sides Reachability.is_reachable Reachability.status
    static_quorum text_beq
tick_acts_example =
    tick_acts calm_resolver ((split, 10) ∷ (one, 5) ∷ []) split 20 refl
      (λ e. absurd (ground (arith, e)))

run-Alternates_example : Alternates false (Notices.run resolver ((split, 20) ∷ (one, 30) ∷ []))
run-Alternates_example = run-Alternates resolver ((split, 20) ∷ (one, 30) ∷ []) refl
