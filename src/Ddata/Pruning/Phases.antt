-- ===== src/Ddata/Pruning/Phases.antt =====
-- Merges of markers.
use atomr.Base.{ℕ, ◌+◌, ◌≡◌, refl, Option, none, some, arith, max, Text, text_eq}
use atomr.Map
use atomr.Ddata.CrdtMerge.{IsSemilattice}
use atomr.Ddata.Pruning.{
  PruningPhase, initialized, performed, PruningState, owner_of, owner, chosen, merge,
}

-- How far the pruning of a node has come, and until when its marker stays.
abbrev pub rank : Option PruningPhase → ℕ
rank none = 0
rank (some (initialized owner)) = 1
rank (some (performed owner obsolete_at)) = obsolete_at + 2

abbrev pub SamePhases : PruningState → PruningState → Type 0
SamePhases a b = (node : Text) → rank (Map.get a.markers node) ≡ rank (Map.get b.markers node)

rank-merged : (a b : Option PruningPhase) → rank (Map.merged chosen a b) ≡ max (rank a) (rank b)
unfolding chosen
rank-merged none none = refl
rank-merged none (some (initialized o)) = refl
rank-merged none (some (performed o t)) = omega arith
rank-merged (some (initialized o)) none = refl
rank-merged (some (performed o t)) none = omega arith
rank-merged (some (initialized o)) (some (initialized p)) = refl
rank-merged (some (initialized o)) (some (performed p u)) = omega arith
rank-merged (some (performed o t)) (some (initialized p)) = omega arith
rank-merged (some (performed o t)) (some (performed p u)) = ground arith

rank-merge :
    (a b : PruningState) (node : Text)
    → rank (Map.get (merge a b).markers node)
      ≡ max (rank (Map.get a.markers node)) (rank (Map.get b.markers node))
unfolding merge
rank-merge a b node =
    rw (Map.get-merge_with chosen a.markers b.markers node)
      (rank-merged (Map.get a.markers node) (Map.get b.markers node))

-- Up to the owners, merging pruning states is a semilattice: the later phase stays, and of two that
-- were performed the one that stays longer.
pub pruning-IsSemilattice : IsSemilattice SamePhases merge
pruning-IsSemilattice = record {
  idem = λ a node. omega (arith, rank-merge a a node);
  comm = λ a b node. omega (arith, rank-merge a b node, rank-merge b a node);
  assoc = λ a b c node. omega (
    arith,
    rank-merge (merge a b) c node,
    rank-merge a b node,
    rank-merge a (merge b c) node,
    rank-merge b c node,
  );
}

-- Of two announcements with different owners each replica keeps its own.
pub owners_stay :
    (a b : PruningState) (node p q : Text)
    → Map.get a.markers node ≡ some (initialized p)
    → Map.get b.markers node ≡ some (initialized q)
    → (owner (merge a b) node ≡ some p) × (owner (merge b a) node ≡ some q)
unfolding merge owner owner_of chosen
owners_stay a b node p q e f = (
  rw (Map.get-merge_with chosen a.markers b.markers node, e, f) refl,
  rw (Map.get-merge_with chosen b.markers a.markers node, e, f) refl,
)
