-- ===== src/Cluster/Reachability.antt =====
-- crates/atomr-cluster/src/reachability.rs: who thinks whom reachable.
pub mod Status
use atomr.Base.{
  Bool, true, false, Option, none, some, List, [], ◌∷◌, Eq, ◌==◌, pair_eq, if◌then◌else◌,
}
use atomr.Core.Address.{Address, address_eq}
use atomr.Map.{Map, get, empty, insert}

pub data ReachabilityStatus : Type 0 where
  reachable unreachable terminated : ReachabilityStatus

pub record Reachability : Type 0 where
  pub records : Map (Address × Address) ReachabilityStatus

unfoldable pub new : Reachability
new = record { records = empty }

is_terminated : Option ReachabilityStatus → Bool
is_terminated (some ReachabilityStatus.terminated) = true
is_terminated _ = false

-- A verdict that is not final: a terminated record is never downgraded.
observe : Reachability → Address → Address → ReachabilityStatus → Reachability
unfolding is_terminated
observe r observer subject st =
    if is_terminated (get r.records (observer, subject))
    then r
    else record { records = insert r.records (observer, subject) st }

unfoldable pub mark_unreachable : Reachability → Address → Address → Reachability
unfolding observe
mark_unreachable r observer subject = observe r observer subject ReachabilityStatus.unreachable

unfoldable pub mark_reachable : Reachability → Address → Address → Reachability
unfolding observe
mark_reachable r observer subject = observe r observer subject ReachabilityStatus.reachable

unfoldable pub mark_terminated : Reachability → Address → Address → Reachability
mark_terminated r observer subject = record {
  records = insert r.records (observer, subject) ReachabilityStatus.terminated;
}

-- The loop of `status`; the flag is `any_unreachable`.
scan : List ((Address × Address) × ReachabilityStatus) → Address → Bool → ReachabilityStatus
scan [] subject any_unreachable =
    if any_unreachable then ReachabilityStatus.unreachable else ReachabilityStatus.reachable
scan (((o, s), ReachabilityStatus.terminated) ∷ l) subject any_unreachable =
    let rest = scan l subject any_unreachable in
    if s == subject then ReachabilityStatus.terminated else rest
scan (((o, s), ReachabilityStatus.unreachable) ∷ l) subject any_unreachable =
    scan l subject (if s == subject then true else any_unreachable)
scan (((o, s), ReachabilityStatus.reachable) ∷ l) subject any_unreachable =
    scan l subject any_unreachable

unfoldable pub status : Reachability → Address → ReachabilityStatus
unfolding scan
status r subject = scan r.records.entries subject false

unfoldable pub is_reachable : Reachability → Address → Bool
is_reachable r subject = elim (status r subject) [ ReachabilityStatus.reachable ↦ true | _ ↦ false ]
