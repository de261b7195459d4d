-- ===== src/Ddata/Tests.antt =====
-- The theorems on atomr-distributed-data at concrete replicas.
use atomr.Ddata.Replicator.{majority, required_acks}
use atomr.Ddata.Pruning.{new_write, is_satisfied, is_failed}
use atomr.Ddata.Pruning.Replies.{answered, write-settles}
use atomr.Base.{
  true, not, ◌&&◌, ◌<◌, ◌⊎◌, length, ℕ, ◌+◌, ◌%◌, ◌≡◌, refl, false, none, List, [], ◌∷◌, arith,
  Text, codes, text_eq, text_beq, u64_mod, nat_eq,
}
use atomr.Map.{Map, get, insert, lookup, set, IsUnique}
use atomr.Ddata.CrdtMerge.{IsSemilattice}
use atomr.Ddata.GCounter.{GCounter, increment, value, take_delta, merge_delta}
use atomr.Ddata.GCounter.Laws.{Same, value-increment}
use atomr.Ddata.GCounter.Deltas
use atomr.Ddata.GCounter.Deltas.{merge_delta-take_delta}
use atomr.Ddata.PnCounter.{PnCounter}
use atomr.Ddata.Register.{LwwRegister}
use atomr.Ddata.Sets.{OrSet, add, remove, contains}
use atomr.Ddata.Sets
use atomr.Ddata.Sets.Laws.{SameTags}
use atomr.Ddata.Sets.OrSetLaws.{orset-IsSemilattice}
use atomr.Ddata.Sets.Additions.{Reached, initial, added, lost_add}
use atomr.Ddata.Maps.LwwMap.{LwwMap}
use atomr.Ddata.Maps.LwwMap
use atomr.Ddata.Maps.OrMultiMap.{OrMultiMap}
use atomr.Ddata.Maps.OrMultiMap

abbrev node : Text
node = codes "n1"

one_node-IsUnique : (n : ℕ) → IsUnique ((codes "n1", n) ∷ [])
unfolding lookup
one_node-IsUnique n = (refl, tt)

-- A counter that shows `n` for one node and has nothing pending.
abbrev counter : ℕ → GCounter
counter n = record {
  state = record { entries = (node, n) ∷ []; unique = one_node-IsUnique n };
  pending_delta = record { entries = []; unique = tt };
}

value-increment_example : value (increment (counter 3) node 4) ≡ (value (counter 3) + 4) % u64_mod
value-increment_example = value-increment (counter 3) node 4

-- Two increments of 2 and 5 at `n1`.
abbrev two_increments : List (Text × ℕ)
two_increments = (node, 2) ∷ (node, 5) ∷ []

abbrev pending : Map Text ℕ
pending = (Deltas.run (counter 3) two_increments).pending_delta

merge_delta-take_delta_example :
    Same (merge_delta (counter 3) pending) (take_delta (Deltas.run (counter 3) two_increments)).0
    × ((take_delta (take_delta (Deltas.run (counter 3) two_increments)).0).1 ≡ none)
unfolding take_delta Deltas.run increment insert get lookup set text_beq
merge_delta-take_delta_example =
    merge_delta-take_delta (counter 3) (counter 3) two_increments pending (λ k. refl) (λ k. refl)
      refl

abbrev balance : PnCounter
balance = record { inc = counter 3; dec = counter 10 }

abbrev write : ℕ → ℕ → Text → LwwRegister ℕ
write v t n = record { value = v; timestamp = t; node = n }

orset-IsSemilattice_example : IsSemilattice (SameTags {T = ℕ}) Sets.merge
orset-IsSemilattice_example = orset-IsSemilattice {T = ℕ}

-- A set from which 7 was removed, and to which 8 was added after.
abbrev set_of_two : OrSet ℕ
set_of_two = add (remove (add Sets.new 7) 7) 8

first_added : Reached (add (Sets.new {T = ℕ}) 7)
unfolding Sets.new
first_added = added Sets.new 7 initial (omega arith)

lost_add_example : contains (Sets.merge (remove (add set_of_two 7) 7) (add set_of_two 7)) 7 ≡ false
lost_add_example = lost_add set_of_two 7

-- The key 1 written at time 5.
abbrev written : ℕ → LwwMap ℕ ℕ
written v = LwwMap.put LwwMap.new 1 v 5

abbrev tagged : OrMultiMap ℕ ℕ
tagged = OrMultiMap.add (record { entries = record { entries = []; unique = tt } }) 1 7

write-settles_example :
    ((is_satisfied (answered (new_write (required_acks majority 3)) (true ∷ false ∷ true ∷ []))
        && is_failed (answered (new_write (required_acks majority 3)) (true ∷ false ∷ true ∷ [])) 3)
      ≡ false)
    × ((length (true ∷ false ∷ true ∷ []) < 3)
        ⊎ (is_satisfied (answered (new_write (required_acks majority 3)) (true ∷ false ∷ true ∷ []))
            ≡ not (
                is_failed
                  (answered (new_write (required_acks majority 3)) (true ∷ false ∷ true ∷ []))
                  3)))
write-settles_example =
    write-settles majority 3 (true ∷ false ∷ true ∷ []) (omega arith) (omega arith) (omega arith)
