-- ===== src/Cluster/Sbr.antt =====
-- crates/atomr-cluster/src/sbr.rs: the split-brain strategies. A strategy sees the members of its
-- own side of a partition and those of the other side.
pub mod Survivors
use atomr.Base.{
  ℕ, ◌+◌, ◌%◌, ◌^◌, max, ℤ, leb_ℤ, Bool, true, false, Option, none, some, List, [], ◌∷◌, leb, ltb,
  ◌==◌, text_eq, Eq, if◌then◌else◌, length, Text, unwrap_or, suc, nat_beq, ◌&&◌, ◌||◌,
}
use atomr.Core.Address.{to_string}
use atomr.Map.{Map, get}
use atomr.Cluster.Member.{Member, is_up}

pub data DowningDecision : Type 0 where
  down_unreachable down_all down_self stay : DowningDecision

-- `trait DowningStrategy`
abbrev pub DowningStrategy : Type 0
DowningStrategy = List Member → List Member → DowningDecision

unfoldable pub up_count : List Member → ℕ
up_count [] = 0
up_count (m ∷ ms) = if is_up m.status then suc (up_count ms) else up_count ms

unfoldable pub keep_majority : DowningStrategy
keep_majority r u =
    let rn = up_count r in
    let un = up_count u in
    if ltb un rn then down_unreachable else if ltb rn un then down_self else down_all

unfoldable pub static_quorum : ℕ → DowningStrategy
static_quorum quorum_size r u = if leb quorum_size (length r) then down_unreachable else down_self

-- `min_by_key`: the first of the members with the lowest `up_number`.
unfoldable pub oldest : List Member → Option Member
oldest [] = none
oldest (m ∷ ms) = elim (oldest ms) [
  | none ↦ some m
  | some x ↦ if leb_ℤ m.up_number x.up_number then some m else some x
]

-- The `match` on the two oldest members, where the own side has `n` members.
sides_oldest : Bool → ℕ → Option Member → Option Member → DowningDecision
sides_oldest down_if_alone n (some ro) (some uo) =
    if leb_ℤ ro.up_number uo.up_number
    then (if nat_beq n 1 && down_if_alone then down_all else down_unreachable)
    else down_self
sides_oldest down_if_alone n (some ro) none = down_unreachable
sides_oldest down_if_alone n none (some uo) = down_self
sides_oldest down_if_alone n none none = stay

unfoldable pub keep_oldest : Bool → DowningStrategy
unfolding sides_oldest
keep_oldest down_if_alone r u = sides_oldest down_if_alone (length r) (oldest r) (oldest u)

has_referee : Text → List Member → Bool
has_referee referee [] = false
has_referee referee (m ∷ ms) = to_string m.address == referee || has_referee referee ms

unfoldable pub keep_referee : Text → ℕ → DowningStrategy
unfolding has_referee
keep_referee referee down_all_if_less_than r u =
    if has_referee referee r
    then (if ltb (length r) down_all_if_less_than then down_all else down_unreachable)
    else down_self

unfoldable pub down_all_when_unstable : DowningStrategy
down_all_when_unstable r [] = stay
down_all_when_unstable r (m ∷ ms) = down_all

unfoldable pub lease_majority : Bool → DowningStrategy
unfolding keep_majority
lease_majority lease_acquired r u = elim (keep_majority r u) [
  | down_all ↦ if lease_acquired then down_unreachable else down_all
  | down_unreachable ↦ down_unreachable
  | down_self ↦ down_self
  | stay ↦ stay
]

abbrev pub u32_mod : ℕ
u32_mod = 2 ^ 32

-- The greatest weight among the roles that have one, 0 if none has.
role_weight : Map Text ℕ → List Text → ℕ
role_weight weights [] = 0
role_weight weights (r ∷ rs) = max (unwrap_or (get weights r) 0) (role_weight weights rs)

unfoldable pub member_weight : Map Text ℕ → Member → ℕ
unfolding role_weight
member_weight weights m = role_weight weights m.roles

-- The sum is a `u32`, and wraps.
unfoldable pub up_weight : Map Text ℕ → List Member → ℕ
up_weight weights [] = 0
up_weight weights (m ∷ ms) =
    if is_up m.status
    then (member_weight weights m + up_weight weights ms) % u32_mod
    else up_weight weights ms

unfoldable pub role_weighted_quorum : Map Text ℕ → ℕ → DowningStrategy
unfolding up_weight
role_weighted_quorum weights min_quorum_weight r u =
    if leb min_quorum_weight (up_weight weights r) then down_unreachable else down_self
