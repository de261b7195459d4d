-- ===== src/Ddata/GCounter/Laws.antt =====
-- The grow-only counter as a semilattice, and its value.
use atomr.Base.{
  ℕ, ◌+◌, ◌%◌, ◌<◌, ◌≡◌, List, [], ◌∷◌, max, arith, Text, text_eq, u64_mod, sym, ◌∙◌, ap,
}
use atomr.Map.{get-merge_with, count, total, total-insert, total_of_count, sum}
use atomr.Ddata.CrdtMerge.{IsSemilattice}
use atomr.Ddata.GCounter.{GCounter, increment, add_at, value, wrapping_sum, merge, keep_max}

-- Two counters that show the same count for every node.
abbrev pub Same : GCounter → GCounter → Type 0
Same a b = (k : Text) → count a.state k ≡ count b.state k

pub count-merge :
    (a b : GCounter) (k : Text)
    → count (merge a b).state k ≡ max (count a.state k) (count b.state k)
unfolding merge
count-merge a b k = rw (get-merge_with keep_max a.state b.state k) (ground arith)

-- The merge of grow-only counters is commutative, associative and idempotent on the count of every
-- node.
pub merge-IsSemilattice : IsSemilattice Same merge
merge-IsSemilattice = record {
  idem = λ a k. omega (arith, count-merge a a k);
  comm = λ a b k. omega (arith, count-merge a b k, count-merge b a k);
  assoc = λ a b c k. omega (
    arith,
    count-merge a b k,
    count-merge (merge a b) c k,
    count-merge b c k,
    count-merge a (merge b c) k,
  );
}

wrapping_sum_lem :
    (acc : ℕ) (l : List (Text × ℕ)) → acc < u64_mod → wrapping_sum acc l ≡ (acc + sum l) % u64_mod
unfolding wrapping_sum sum
wrapping_sum_lem acc [] h = omega arith
wrapping_sum_lem acc ((k, v) ∷ l) h =
    omega (arith, wrapping_sum_lem ((acc + v) % u64_mod) l (omega arith))

pub value-total : (g : GCounter) → value g ≡ total g.state % u64_mod
unfolding value total
value-total g = wrapping_sum_lem 0 g.state.entries (omega arith) ∙ omega arith

-- The value depends on the counts alone: replicas that agree on every node's count show one value.
pub value_of_Same : (a b : GCounter) → Same a b → value a ≡ value b
value_of_Same a b h =
    value-total a ∙ ap (λ n. n % u64_mod) (total_of_count a.state b.state h) ∙ sym (value-total b)

wrap_add :
    (t t' c d : ℕ) → t' + c ≡ t + (c + d) % u64_mod → t' % u64_mod ≡ (t % u64_mod + d) % u64_mod
wrap_add t t' c d h = omega arith

-- An increment by a `u64` adds its delta to the value, modulo 2^64, whichever node makes it and
-- whatever the counter holds.
pub value-increment :
    (g : GCounter) (node : Text) (delta : ℕ)
    → value (increment g node delta) ≡ (value g + delta) % u64_mod
unfolding increment add_at
value-increment g node delta =
    value-total (increment g node delta)
    ∙ wrap_add (total g.state) (total (increment g node delta).state) (count g.state node) delta
        (total-insert g.state node ((count g.state node + delta) % u64_mod))
    ∙ ap (λ n. (n + delta) % u64_mod) (sym (value-total g))
