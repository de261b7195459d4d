-- ===== src/Cluster/SbrRuntime.antt =====
-- crates/atomr-cluster/src/sbr_runtime.rs. An `Instant` is a number of nanoseconds, and
-- `duration_since` stops at 0. The calls of the quorum observer are returned as a list.
pub mod Stability
pub mod Notices
use atomr.Base.{
  ℕ, ◌-◌, Bool, true, false, Option, none, some, List, [], ◌∷◌, map, ltb, leb, if◌then◌else◌, Text,
  unwrap_or,
}
use atomr.Core.Address.{to_string}
use atomr.Cluster.Member.{Member, MemberStatus}
use atomr.Cluster.Reachability.{Reachability, is_reachable}
use atomr.Cluster.Membership.{MembershipState}
use atomr.Cluster.Sbr.{DowningDecision, DowningStrategy}

pub data SbrAction : Type 0 where
  no_action down_self : SbrAction
  down_unreachable down_all : List Text → SbrAction

pub data Notice : Type 0 where
  quorum_lost quorum_regained : Notice

pub record SbrRuntime : Type 0 where
  pub strategy : DowningStrategy
  pub stable_after : ℕ
  pub unstable_since : Option ℕ
  pub observer : Bool
  pub quorum_is_lost : Bool

unfoldable pub new : DowningStrategy → ℕ → SbrRuntime
new strategy stable_after = record {
  strategy = strategy;
  stable_after = stable_after;
  unstable_since = none;
  observer = false;
  quorum_is_lost = false;
}

unfoldable pub with_observer : SbrRuntime → SbrRuntime
with_observer rt = record rt { observer = true }

note_quorum_lost : SbrRuntime → SbrRuntime × List Notice
note_quorum_lost rt =
    if rt.quorum_is_lost
    then (rt, [])
    else (record rt { quorum_is_lost = true }, (if rt.observer then quorum_lost ∷ [] else []))

note_quorum_regained : SbrRuntime → SbrRuntime × List Notice
note_quorum_regained rt =
    if rt.quorum_is_lost
    then (record rt { quorum_is_lost = false }, (if rt.observer then quorum_regained ∷ [] else []))
    else (rt, [])

-- `Down` and `Removed` members are on neither side.
abbrev pub counts : Member → Bool
counts m = elim m.status [ MemberStatus.down ↦ false | MemberStatus.removed ↦ false | _ ↦ true ]

-- The partition of the members: the reachable side, and the other.
unfoldable pub sides : Reachability → List Member → List Member × List Member
sides r [] = ([], [])
sides r (m ∷ ms) =
    let (reachable, unreachable) = sides r ms in
    if counts m
    then (if is_reachable r m.address
        then (m ∷ reachable, unreachable)
        else (reachable, m ∷ unreachable))
    else (reachable, unreachable)

abbrev names : List Member → List Text
names = map (λ m. to_string m.address)

-- The action of a decision that the partition's age allows.
act :
    SbrRuntime
    → MembershipState
    → List Member
    → DowningDecision
    → SbrRuntime × SbrAction × List Notice
unfolding note_quorum_lost
act rt s unreachable DowningDecision.stay = (rt, no_action, [])
act rt s unreachable DowningDecision.down_unreachable =
    (rt, down_unreachable (names unreachable), [])
act rt s unreachable DowningDecision.down_all = (rt, down_all (names s.members), [])
act rt s unreachable DowningDecision.down_self =
    let (rt', notices) = note_quorum_lost rt in (rt', down_self, notices)

-- What `tick` does with the two sides.
decide :
    SbrRuntime
    → MembershipState
    → ℕ
    → List Member × List Member
    → SbrRuntime × SbrAction × List Notice
unfolding act note_quorum_regained
decide rt s now (reachable, []) =
    let (rt', notices) = note_quorum_regained (record rt { unstable_since = none }) in
    (rt', no_action, notices)
decide rt s now (reachable, m ∷ ms) =
    let since = unwrap_or rt.unstable_since now in
    let seen = record rt { unstable_since = some since } in
    if ltb (now - since) rt.stable_after
    then (seen, no_action, [])
    else act seen s (m ∷ ms) (rt.strategy reachable (m ∷ ms))

unfoldable pub tick : SbrRuntime → MembershipState → ℕ → SbrRuntime × SbrAction × List Notice
unfolding decide sides
tick rt s now = decide rt s now (sides s.reachability s.members)

unfoldable pub is_stable : SbrRuntime → ℕ → Bool
is_stable rt now = elim rt.unstable_since [ some t ↦ leb rt.stable_after (now - t) | none ↦ true ]
