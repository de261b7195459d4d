-- ===== src/Cluster/VectorClock/Order.antt =====
-- The vector clock as a partial order: `compare` decides it, `merge` is the join, `tick` moves up.
use atomr.Base.{
  ◌+◌, ◌%◌, ◌≤◌, ◌<◌, ◌≡◌, refl, Bool, true, false, not, ◌&&◌, text_beq_iff, ◌⊎◌, ◌↔◌, inl, inr,
  List, [], ◌∷◌, ◌++◌, arith, Text, text_eq, ltb, if◌then◌else◌, u64_mod, Bool-cases, max, ◌==◌,
}
use atomr.Map.{get-insert, get-merge_with, keys, collect, elem, elem-append, elem-keys, get-collect}
use atomr.Cluster.VectorClock.{
  VectorClock, VectorRelation, before, after, same, concurrent, version_of, tick, merge, compare,
  scan, raise,
}

-- `a` has seen nothing that `b` has not.
abbrev pub Leq : VectorClock → VectorClock → Type 0
Leq a b = (k : Text) → version_of a k ≤ version_of b k

abbrev pub Relates : VectorRelation → VectorClock → VectorClock → Type 0
Relates same a b = Leq a b × Leq b a
Relates before a b = Leq a b × (¬ Leq b a)
Relates after a b = (¬ Leq a b) × Leq b a
Relates concurrent a b = (¬ Leq a b) × (¬ Leq b a)

pub version_of-merge :
    (a b : VectorClock) (k : Text)
    → version_of (merge a b) k ≡ max (version_of a k) (version_of b k)
unfolding version_of merge
version_of-merge a b k = rw (get-merge_with raise a.versions b.versions k) (ground arith)

-- `a ≤ b` on the listed nodes.
leq_on : VectorClock → VectorClock → List Text → Bool
leq_on a b [] = true
leq_on a b (k ∷ l) = not (ltb (version_of b k) (version_of a k)) && leq_on a b l

scan-leq_on :
    (a b : VectorClock) (l : List Text) (x y : Bool)
    → scan a b l x y ≡ (x && leq_on a b l, y && leq_on b a l)
unfolding scan leq_on
scan-leq_on a b [] x y = ground arith
scan-leq_on a b (k ∷ l) x y = ground (
  arith,
  scan-leq_on a b l (if ltb (version_of b k) (version_of a k) then false else x)
      (if ltb (version_of a k) (version_of b k) then false else y),
)

leq_of_leq_on :
    (a b : VectorClock) (l : List Text) (k : Text)
    → leq_on a b l ≡ true
    → elem k l ≡ true
    → version_of a k ≤ version_of b k
unfolding leq_on elem
leq_of_leq_on a b [] k h m = cc
leq_of_leq_on a b (j ∷ l) k h m = ground (arith, leq_of_leq_on a b l k, text_beq_iff j k)

not-Leq_of_leq_on : (a b : VectorClock) (l : List Text) → leq_on a b l ≡ false → ¬ Leq a b
unfolding leq_on
not-Leq_of_leq_on a b [] h f = cc
not-Leq_of_leq_on a b (j ∷ l) h f = ground (arith, not-Leq_of_leq_on a b l, f j)

abbrev nodes : VectorClock → VectorClock → List Text
nodes a b = keys (collect (keys a.versions ++ keys b.versions))

-- A node that neither clock lists counts 0 in both.
Leq-of_nodes :
    (a b : VectorClock) (l : List Text)
    → ((k : Text) → elem k l ≡ elem k (nodes a b))
    → leq_on a b l ≡ true
    → Leq a b
unfolding version_of
Leq-of_nodes a b l e h k = ground (
  arith,
  leq_of_leq_on a b l k h,
  e k,
  elem-keys (collect (keys a.versions ++ keys b.versions)) k,
  get-collect (keys a.versions ++ keys b.versions) k,
  elem-append k (keys a.versions) (keys b.versions),
  elem-keys a.versions k,
  elem-keys b.versions k,
)

nodes_comm : (a b : VectorClock) (k : Text) → elem k (nodes a b) ≡ elem k (nodes b a)
nodes_comm a b k = simp (elem-keys, get-collect, elem-append) (ground arith)

Leq-cases :
    (a b : VectorClock) (l : List Text)
    → ((k : Text) → elem k l ≡ elem k (nodes a b))
    → ((leq_on a b l ≡ true) × Leq a b) ⊎ ((leq_on a b l ≡ false) × (¬ Leq a b))
Leq-cases a b l e = elim (Bool-cases (leq_on a b l)) [
  | inl h ↦ inl (h, Leq-of_nodes a b l e h)
  | inr h ↦ inr (h, not-Leq_of_leq_on a b l h)
]

-- `compare` tells how the two clocks stand, node by node: `same`, `before` and `after` exactly when
-- they are ordered that way on every node, `concurrent` when neither is below the other.
pub compare-Relates : (a b : VectorClock) → Relates (compare a b) a b
unfolding compare
compare-Relates a b = elim (Leq-cases a b (nodes a b) (λ k. refl)) [
  | inl p ↦ elim (Leq-cases b a (nodes a b) (nodes_comm a b)) [
    | inl q ↦ rw (scan-leq_on a b (nodes a b) true true, p.0, q.0) (p.1, q.1)
    | inr q ↦ rw (scan-leq_on a b (nodes a b) true true, p.0, q.0) (p.1, q.1)
  ]
  | inr p ↦ elim (Leq-cases b a (nodes a b) (nodes_comm a b)) [
    | inl q ↦ rw (scan-leq_on a b (nodes a b) true true, p.0, q.0) (p.1, q.1)
    | inr q ↦ rw (scan-leq_on a b (nodes a b) true true, p.0, q.0) (p.1, q.1)
  ]
]

-- `merge` is the least clock above both: a clock is above the merge exactly if it is above the two.
pub merge-IsJoin : (a b c : VectorClock) → (Leq (merge a b) c) ↔ (Leq a c × Leq b c)
merge-IsJoin a b c = (
  λ h. (
    λ k. omega (arith, version_of-merge a b k, h k),
    λ k. omega (arith, version_of-merge a b k, h k),
  ),
  λ h k. omega (arith, version_of-merge a b k, h.0 k, h.1 k),
)

version_of-tick :
    (a : VectorClock) (node k : Text)
    → version_of (tick a node) k
      ≡ (if node == k then (version_of a node + 1) % u64_mod else version_of a k)
unfolding version_of tick
version_of-tick a node k = rw get-insert (ground arith)

-- Ticking moves a clock strictly up, as long as the node's counter does not wrap.
pub compare-tick :
    (a : VectorClock) (node : Text)
    → version_of a node + 1 < u64_mod
    → compare a (tick a node) ≡ before
compare-tick a node room = go (compare a (tick a node)) (compare-Relates a (tick a node))
  where
    up : Leq a (tick a node)
    up k = ground (arith, version_of-tick a node k, text_beq_iff node k)

    strict : ¬ Leq (tick a node) a
    strict f = ground (arith, version_of-tick a node node, text_beq_iff node node, f node)

    go : (r : VectorRelation) → Relates r a (tick a node) → r ≡ before
    go before h = refl
    go after h = absurd (h.0 up)
    go same h = absurd (strict h.1)
    go concurrent h = absurd (h.0 up)
