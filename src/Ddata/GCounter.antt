-- ===== src/Ddata/GCounter.antt =====
-- crates/atomr-distributed-data/src/counters.rs: the grow-only counter. The counts are `u64` and wrap as a
-- release build does.
pub mod Laws
pub mod Deltas
use atomr.Base.{
  ℕ, ◌+◌, ◌-◌, ◌%◌, ◌^◌, ℤ, pos, negsuc, Bool, true, false, ◌||◌, Option, none, some, List, [], ◌∷◌,
  max, if◌then◌else◌, unwrap_or, Text, text_eq, u64_mod, ltb,
}
use atomr.Map.{Map, get, empty, insert, merge_with, count}

pub record GCounter : Type 0 where
  pub state : Map Text ℕ
  pub pending_delta : Map Text ℕ

unfoldable pub new : GCounter
new = record { state = empty; pending_delta = empty }

-- `*m.entry(key).or_default() += delta`
unfoldable pub add_at : Map Text ℕ → Text → ℕ → Map Text ℕ
add_at m key delta = insert m key ((count m key + delta) % u64_mod)

unfoldable pub increment : GCounter → Text → ℕ → GCounter
unfolding add_at
increment g node delta = record {
  state = add_at g.state node delta;
  pending_delta = add_at g.pending_delta node delta;
}

-- `values().copied().sum()`
wrapping_sum : ℕ → List (Text × ℕ) → ℕ
wrapping_sum acc [] = acc
wrapping_sum acc ((k, v) ∷ l) = wrapping_sum ((acc + v) % u64_mod) l

unfoldable pub value : GCounter → ℕ
unfolding wrapping_sum
value g = wrapping_sum 0 g.state.entries

abbrev pub keep_max : Option ℕ → ℕ → ℕ
keep_max slot v = max (unwrap_or slot 0) v

unfoldable pub merge : GCounter → GCounter → GCounter
merge g other = record g { state = merge_with keep_max g.state other.state }

abbrev pub is_empty : List (Text × ℕ) → Bool
is_empty [] = true
is_empty (x ∷ l) = false

unfoldable pub take_delta : GCounter → GCounter × Option (Map Text ℕ)
take_delta g =
    if is_empty g.pending_delta.entries
    then (g, none)
    else (record g { pending_delta = empty }, some g.pending_delta)

abbrev pub add_to : Option ℕ → ℕ → ℕ
add_to slot v = (unwrap_or slot 0 + v) % u64_mod

unfoldable pub merge_delta : GCounter → Map Text ℕ → GCounter
merge_delta g delta = record g { state = merge_with add_to g.state delta }
