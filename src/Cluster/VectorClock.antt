-- ===== src/Cluster/VectorClock.antt =====
-- crates/atomr-cluster/src/vector_clock.rs. The clock counts in `u64` and wraps as a release build
-- does. `compare` walks the union of the two key sets, whose order it does not observe.
pub mod Order
use atomr.Base.{
  ℕ, ◌+◌, ◌%◌, ◌^◌, Bool, true, false, Option, none, some, List, [], ◌∷◌, ◌++◌, Text, text_eq, ltb,
  if◌then◌else◌, unwrap_or, u64_mod,
}
use atomr.Map.{Map, get, empty, insert, merge_with, keys, collect}

pub data VectorRelation : Type 0 where
  before after same concurrent : VectorRelation

pub record VectorClock : Type 0 where
  pub versions : Map Text ℕ

unfoldable pub new : VectorClock
new = record { versions = empty }

-- `self.versions.get(k).copied().unwrap_or(0)`
unfoldable pub version_of : VectorClock → Text → ℕ
version_of a k = unwrap_or (get a.versions k) 0

unfoldable pub tick : VectorClock → Text → VectorClock
tick a node = record {
  versions = insert a.versions node ((unwrap_or (get a.versions node) 0 + 1) % u64_mod);
}

abbrev raise : Option ℕ → ℕ → ℕ
raise o v = let entry = unwrap_or o 0 in if ltb entry v then v else entry

unfoldable pub merge : VectorClock → VectorClock → VectorClock
merge a b = record { versions = merge_with raise a.versions b.versions }

scan : VectorClock → VectorClock → List Text → Bool → Bool → Bool × Bool
scan a b [] a_le b_le = (a_le, b_le)
scan a b (k ∷ l) a_le b_le =
    scan a b l (if ltb (version_of b k) (version_of a k) then false else a_le)
      (if ltb (version_of a k) (version_of b k) then false else b_le)

relation_of : Bool × Bool → VectorRelation
relation_of (true, true) = same
relation_of (true, false) = before
relation_of (false, true) = after
relation_of (false, false) = concurrent

unfoldable pub compare : VectorClock → VectorClock → VectorRelation
unfolding relation_of scan
compare a b = relation_of (scan a b (keys (collect (keys a.versions ++ keys b.versions))) true true)
