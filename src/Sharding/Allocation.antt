-- ===== src/Sharding/Allocation.antt =====
-- crates/atomr-cluster-sharding/src/allocation.rs: where a shard goes, and which shards move. A map is iterated in
-- the order of its list; what is read off it is sorted first.
pub mod Sorting
pub mod Least
use atomr.Base.{
  ℕ, suc, ◌-◌, max, min, Bool, true, false, ◌&&◌, ◌||◌, Option, none, some, List, [], ◌∷◌, map, ltb,
  leb, nat_beq, if◌then◌else◌, Text, text_eq, text_leb, ◌==◌, take, length, unwrap_or,
}
use atomr.Map.{Map, size}
use atomr.Map
use atomr.Sorted.{first}

-- The trait.
pub record ShardAllocationStrategy : Type 0 where
  pub allocate_shard : Text → Map Text ℕ → Option Text
  pub rebalance : Map Text Text → Map Text ℕ → List Text

pub record LeastShardAllocationStrategy : Type 0 where
  pub max_simultaneous_rebalance : ℕ
  pub rebalance_threshold : ℕ

unfoldable pub default : LeastShardAllocationStrategy
default = record { max_simultaneous_rebalance = 3; rebalance_threshold = 1 }

-- `sort_by`, with `a <= b` as a test. It is stable.
unfoldable pub place : {A : Type 0} → (A → A → Bool) → A → List A → List A
place le x [] = x ∷ []
place le x (y ∷ l) = let rest = place le x l in if le x y then x ∷ y ∷ l else y ∷ rest

unfoldable pub sort_by : {A : Type 0} → (A → A → Bool) → List A → List A
sort_by le [] = []
sort_by le (x ∷ l) = place le x (sort_by le l)

-- By the count, then by the name.
abbrev pub entry_le : Text × ℕ → Text × ℕ → Bool
entry_le a b = ltb a.1 b.1 || (nat_beq a.1 b.1 && text_leb a.0 b.0)

unfoldable pub name_of : Option (Text × ℕ) → Option Text
name_of none = none
name_of (some e) = some e.0

unfoldable pub allocate_least : Map Text ℕ → Option Text
allocate_least regions = name_of (first (sort_by entry_le regions.entries))

unfoldable pub values : List (Text × ℕ) → List ℕ
values [] = []
values ((k, n) ∷ l) = n ∷ values l

unfoldable pub greatest : List ℕ → Option ℕ
greatest [] = none
greatest (n ∷ l) = some (elim (greatest l) [ none ↦ n | some m ↦ max n m ])

unfoldable pub smallest : List ℕ → Option ℕ
smallest [] = none
smallest (n ∷ l) = some (elim (smallest l) [ none ↦ n | some m ↦ min n m ])

-- The regions with as many shards as any.
unfoldable pub with_count : ℕ → List (Text × ℕ) → List Text
with_count n [] = []
with_count n ((k, m) ∷ l) = let rest = with_count n l in if nat_beq m n then k ∷ rest else rest

unfoldable pub has : Text → List Text → Bool
has k [] = false
has k (j ∷ l) = j == k || has k l

unfoldable pub located_in : List Text → List (Text × Text) → List Text
located_in regions [] = []
located_in regions ((shard, region) ∷ l) =
    let rest = located_in regions l in if has region regions then shard ∷ rest else rest

unfoldable pub rebalance_least :
    LeastShardAllocationStrategy → Map Text Text → Map Text ℕ → List Text
rebalance_least s current regions =
    let most = unwrap_or (greatest (values regions.entries)) 0 in
    let least = unwrap_or (smallest (values regions.entries)) 0 in
    let max_regions = sort_by text_leb (with_count most regions.entries) in
    let out = sort_by text_leb (located_in max_regions current.entries) in
    if ltb (size regions) 2
    then []
    else if ltb (most - least) s.rebalance_threshold
    then []
    else take s.max_simultaneous_rebalance out

unfoldable pub least_shard : LeastShardAllocationStrategy → ShardAllocationStrategy
least_shard s = record {
  allocate_shard = λ shard regions. allocate_least regions;
  rebalance = λ current regions. rebalance_least s current regions;
}

unfoldable pub pinned : Text → ShardAllocationStrategy
pinned region = record {
  allocate_shard = λ shard regions. some region;
  rebalance = λ current regions. [];
}
