-- ===== src/Core/Queues/Priority.antt =====
-- The priority queues of crates/atomr-core/src/dispatch/message_queues.rs. A `BinaryHeap` is a list of its items
-- from which the greatest is taken.
use atomr.Base.{
  ℕ, ◌+◌, ◌%◌, Bool, not, ◌&&◌, ◌||◌, Option, none, some, List, [], ◌∷◌, leb, if◌then◌else◌, ℤ,
  leb_ℤ, u64_mod,
}

-- The trait, with an `i32`.
pub record Prioritized (T : Type 0) : Type 0 where
  pub priority : T → ℤ

-- `a < b`
abbrev pub ltb_ℤ : ℤ → ℤ → Bool
ltb_ℤ a b = not (leb_ℤ b a)

-- `BinaryHeap::pop`: the greatest item by `cmp`, where `le a b` is `a <= b`. Which of two equal items comes first
-- is left open by the heap; here it is the one that was pushed later.
unfoldable pub heap_pop : {A : Type 0} → (A → A → Bool) → List A → Option (A × List A)
heap_pop le [] = none
heap_pop le (x ∷ items) = elim (heap_pop le items) [
  | none ↦ some (x, [])
  | some (y, rest) ↦ if le y x then some (x, items) else some (y, x ∷ rest)
]

pub record PriItem (T : Type 0) : Type 0 where
  pub prio : ℤ
  pub inner : T

pub record StableItem (T : Type 0) : Type 0 where
  pub prio : ℤ
  pub seq : ℕ
  pub inner : T

pub record PriorityQueue (T : Type 0) : Type 0 where
  pub heap : List (PriItem T)

pub record StablePriorityQueue (T : Type 0) : Type 0 where
  pub heap : List (StableItem T)
  pub seq : ℕ

abbrev pub pri_le : {T : Type 0} → PriItem T → PriItem T → Bool
pri_le a b = leb_ℤ a.prio b.prio

-- The earlier of two items with one priority is the greater.
abbrev pub stable_le : {T : Type 0} → StableItem T → StableItem T → Bool
stable_le a b = ltb_ℤ a.prio b.prio || (leb_ℤ a.prio b.prio && leb b.seq a.seq)

module _ {T : Type 0} ⦃p : Prioritized T⦄ where
  unfoldable pub push_priority : PriorityQueue T → T → PriorityQueue T
  push_priority q msg = record { heap = record { prio = p.priority msg; inner = msg } ∷ q.heap }

  unfoldable pub push_stable : StablePriorityQueue T → T → StablePriorityQueue T
  push_stable q msg = record {
    heap = record { prio = p.priority msg; seq = q.seq; inner = msg } ∷ q.heap;
    seq = (q.seq + 1) % u64_mod;
  }

module _ {T : Type 0} where
  unfoldable pub pop_priority : PriorityQueue T → PriorityQueue T × Option T
  pop_priority q = elim (heap_pop pri_le q.heap) [
    | none ↦ (q, none)
    | some (item, rest) ↦ (record { heap = rest }, some item.inner)
  ]

  unfoldable pub new_stable : StablePriorityQueue T
  new_stable = record { heap = []; seq = 0 }

  unfoldable pub pop_stable : StablePriorityQueue T → StablePriorityQueue T × Option T
  pop_stable q = elim (heap_pop stable_le q.heap) [
    | none ↦ (q, none)
    | some (item, rest) ↦ (record q { heap = rest }, some item.inner)
  ]
