-- ===== src/Core/Queues/Stable.antt =====
-- The stable priority queue against its specification, a list of messages in the order in which they came.
use atomr.Base.{
  ℕ, suc, ◌+◌, ◌<◌, ◌≤◌, ◌≡◌, refl, sym, ap, subst, Option, none, some, List, [], ◌∷◌, arith,
  if◌then◌else◌, length, Bool-cases, inl, inr, ℤ, u64_mod,
}
use atomr.Core.Queues.Priority.{
  Prioritized, ltb_ℤ, heap_pop, StableItem, StablePriorityQueue, stable_le, push_stable, new_stable,
  pop_stable,
}

-- The specification. The latest message stands first; the one that is taken is the earliest of those
-- with the greatest priority.
unfoldable pub take_first : {T : Type 0} → (T → ℤ) → List T → Option (T × List T)
take_first priority [] = none
take_first priority (m ∷ older) = elim (take_first priority older) [
  | none ↦ some (m, [])
  | some (first, rest) ↦
      if ltb_ℤ (priority first) (priority m) then some (m, older) else some (first, m ∷ rest)
]

module _ {T : Type 0} (p : T → ℤ) where
  -- The heap of a queue in which nothing has wrapped: the later an item came, the greater its number.
  IsOrdered : ℕ → List (StableItem T) → Type 0
  IsOrdered bound [] = Unit
  IsOrdered bound (item ∷ items) =
      (item.seq < bound) × (item.prio ≡ p item.inner) × IsOrdered item.seq items

  messages : List (StableItem T) → List T
  messages [] = []
  messages (item ∷ items) = item.inner ∷ messages items

  -- What a pop of the heap is for the specification.
  seen : Option (StableItem T × List (StableItem T)) → Option (T × List T)
  seen none = none
  seen (some (item, rest)) = some (item.inner, messages rest)

  -- An item taken from a heap is below its bound, and the rest is in order.
  IsPopped : ℕ → Option (StableItem T × List (StableItem T)) → Type 0
  IsPopped bound none = Unit
  IsPopped bound (some (item, rest)) =
      (item.seq < bound) × (item.prio ≡ p item.inner) × IsOrdered bound rest

  weaken : (a b : ℕ) (items : List (StableItem T)) → a ≤ b → IsOrdered a items → IsOrdered b items
  unfolding IsOrdered
  weaken a b [] h o = tt
  weaken a b (item ∷ items) h o = (omega (arith, h, o.0), o.1, o.2)

  stable_le_lem :
      (x y : StableItem T)
      → y.seq < x.seq
      → x.prio ≡ p x.inner
      → y.prio ≡ p y.inner
      → stable_le y x ≡ ltb_ℤ (p y.inner) (p x.inner)
  stable_le_lem x y h q r = ground arith

  heap_pop_step :
      (bound : ℕ) (x : StableItem T) (items : List (StableItem T))
      (o : Option (StableItem T × List (StableItem T)))
      → heap_pop stable_le items ≡ o
      → x.seq < bound
      → x.prio ≡ p x.inner
      → IsOrdered x.seq items
      → IsPopped x.seq o
      → seen o ≡ take_first p (messages items)
      → IsPopped bound (heap_pop stable_le (x ∷ items))
        × (seen (heap_pop stable_le (x ∷ items)) ≡ take_first p (messages (x ∷ items)))
  unfolding heap_pop IsPopped IsOrdered seen take_first messages
  heap_pop_step bound x items none e b q r i s =
      rw (heap_pop, e, take_first, sym s) ((b, q, tt), refl)
  heap_pop_step bound x items (some (y, rest)) e b q r (iy, iq, ir) s =
      elim (Bool-cases (ltb_ℤ (p y.inner) (p x.inner))) [
        | inl h ↦
            rw (heap_pop, e, take_first, sym s, stable_le_lem x y iy q iq, h)
              ((b, q, weaken x.seq bound items (omega (arith, b)) r), refl)
        | inr h ↦
            rw (heap_pop, e, take_first, sym s, stable_le_lem x y iy q iq, h)
              ((omega (arith, b, iy), iq, (b, q, ir)), refl)
      ]

  heap_pop_lem :
      (bound : ℕ) (items : List (StableItem T))
      → IsOrdered bound items
      → IsPopped bound (heap_pop stable_le items)
        × (seen (heap_pop stable_le items) ≡ take_first p (messages items))
  unfolding heap_pop IsPopped IsOrdered seen take_first messages
  heap_pop_lem bound [] o = (tt, refl)
  heap_pop_lem bound (x ∷ items) o =
      let (i, s) = heap_pop_lem x.seq items o.2 in
      heap_pop_step bound x items (heap_pop stable_le items) refl o.0 o.1 o.2 i s

pub data Call (T : Type 0) : Type 0 where
  pushes : T → Call T
  pops : Call T

-- The answers of the queue to the pops in a sequence of calls, and those of the specification.
module _ {T : Type 0} ⦃p : Prioritized T⦄ where
  unfoldable pub answers : StablePriorityQueue T → List (Call T) → List (Option T)
  answers q [] = []
  answers q (pushes m ∷ calls) = answers (push_stable q m) calls
  answers q (pops ∷ calls) = (pop_stable q).1 ∷ answers (pop_stable q).0 calls

  -- The queue and the message that one pop of the specification gives.
  unfoldable pub taken : List T → Option (T × List T) → List T × Option T
  taken l none = (l, none)
  taken l (some (m, rest)) = (rest, some m)

  unfoldable pub specified : List T → List (Call T) → List (Option T)
  specified l [] = []
  specified l (pushes m ∷ calls) = specified (m ∷ l) calls
  specified l (pops ∷ calls) =
      let (rest, m) = taken l (take_first p.priority l) in m ∷ specified rest calls

  Stands : StablePriorityQueue T → List T → Type 0
  Stands q l = IsOrdered p.priority q.seq q.heap × (messages p.priority q.heap ≡ l)

  stands :
      (q : StablePriorityQueue T) (l : List T)
      → Stands q l
      → IsOrdered p.priority q.seq q.heap × (messages p.priority q.heap ≡ l)
  unfolding Stands
  stands q l h = h

  after_push :
      (q : StablePriorityQueue T) (m : T) (n : ℕ)
      → q.seq + suc n < u64_mod
      → (push_stable q m).seq + n < u64_mod
  unfolding push_stable
  after_push q m n h = omega (arith, h)

  push-Stands :
      (q : StablePriorityQueue T) (l : List T) (m : T)
      → q.seq + 1 < u64_mod
      → Stands q l
      → Stands (push_stable q m) (m ∷ l)
  unfolding Stands push_stable IsOrdered messages
  push-Stands q l m h (o, e) = ((omega (arith, h), refl, o), ap (λ k. m ∷ k) e)

  popped_as :
      (q : StablePriorityQueue T) (o : Option (StableItem T × List (StableItem T)))
      → heap_pop stable_le q.heap ≡ o
      → IsPopped p.priority q.seq o
      → IsOrdered p.priority q.seq q.heap
      → ((pop_stable q).1 ≡ (taken (messages p.priority q.heap) (seen p.priority o)).1)
        × ((pop_stable q).0.seq ≡ q.seq)
        × Stands (pop_stable q).0 (taken (messages p.priority q.heap) (seen p.priority o)).0
  unfolding pop_stable taken seen IsPopped Stands
  popped_as q none e i r = rw (pop_stable, e) (refl, refl, (r, refl))
  popped_as q (some (item, rest)) e i r = rw (pop_stable, e) (refl, refl, (i.2, refl))

  pop-Stands :
      (q : StablePriorityQueue T) (l : List T)
      → Stands q l
      → ((pop_stable q).1 ≡ (taken l (take_first p.priority l)).1)
        × ((pop_stable q).0.seq ≡ q.seq)
        × Stands (pop_stable q).0 (taken l (take_first p.priority l)).0
  pop-Stands q l h =
      let (o, e) = stands q l h in
      let (i, s) = heap_pop_lem p.priority q.seq q.heap o in
      let r = popped_as q (heap_pop stable_le q.heap) refl i o in
      subst
        (λ k.
          ((pop_stable q).1 ≡ (taken k (take_first p.priority k)).1)
          × ((pop_stable q).0.seq ≡ q.seq)
          × Stands (pop_stable q).0 (taken k (take_first p.priority k)).0)
        e (rw (sym s) r)

  answers-specified :
      (q : StablePriorityQueue T) (l : List T) (calls : List (Call T))
      → q.seq + length calls < u64_mod
      → Stands q l
      → answers q calls ≡ specified l calls
  unfolding answers specified
  answers-specified q l [] h s = refl
  answers-specified q l (pushes m ∷ calls) h s =
      answers-specified (push_stable q m) (m ∷ l) calls (after_push q m (length calls) h)
        (push-Stands q l m (omega (arith, h)) s)
  answers-specified q l (pops ∷ calls) h s =
      let (a, k, t) = pop-Stands q l s in
      rw (a, answers-specified (pop_stable q).0 _ calls (omega (arith, h, k)) t) refl

  -- Every sequence of fewer than 2 ^ 64 calls gets from the queue what it gets from the list that
  -- gives the earliest message with the greatest priority: the queue is stable.
  pub stable_refines :
      (calls : List (Call T))
      → length calls < u64_mod
      → answers new_stable calls ≡ specified [] calls
  unfolding new_stable Stands IsOrdered messages
  stable_refines calls h = answers-specified new_stable [] calls (omega (arith, h)) (tt, refl)
