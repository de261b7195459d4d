-- ===== src/Ddata/CrdtMerge.antt =====
-- The contract of `trait CrdtMerge` in crates/atomr-distributed-data/src/traits.rs: merge is
-- commutative, associative and idempotent, up to what a replica shows.
pub record IsSemilattice {A : Type 0} (Same : A → A → Type 0) (merge : A → A → A) : Type 0 where
  pub idem : (a : A) → Same (merge a a) a
  pub comm : (a b : A) → Same (merge a b) (merge b a)
  pub assoc : (a b c : A) → Same (merge (merge a b) c) (merge a (merge b c))
