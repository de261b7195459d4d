-- ===== src/Core/Queues/Bounded.antt =====
-- crates/atomr-core/src/util/bounded_queue.rs, and the bounded mailbox queue that stands on it.
use atomr.Base.{
  ℕ, Bool, ◌⊎◌, inl, inr, Option, none, some, List, [], ◌∷◌, ◌++◌, leb, if◌then◌else◌, length,
}
use atomr.Core.Queues.Fifo.{pop_front}

-- dispatch/mailbox.rs
pub data OverflowStrategy : Type 0 where
  drop_new : OverflowStrategy
  drop_head : OverflowStrategy
  drop_tail : OverflowStrategy
  fail : OverflowStrategy

pub record BoundedQueue (T : Type 0) : Type 0 where
  pub cap : ℕ
  pub inner : List T

pub data PushOutcome (T : Type 0) : Type 0 where
  accepted : PushOutcome T
  dropped : T → PushOutcome T
  rejected : T → PushOutcome T

pub record BoundedMsgQueue (T : Type 0) : Type 0 where
  pub inner : BoundedQueue T
  pub overflow : OverflowStrategy

-- `VecDeque::pop_back`
unfoldable pub split_last : {T : Type 0} → List T → List T × Option T
split_last [] = ([], none)
split_last (m ∷ []) = ([], some m)
split_last (m ∷ n ∷ l) = let (front, last) = split_last (n ∷ l) in (m ∷ front, last)

module _ {T : Type 0} where
  unfoldable pub new_bounded : ℕ → BoundedQueue T
  new_bounded cap = record { cap = cap; inner = [] }

  unfoldable pub is_full : BoundedQueue T → Bool
  is_full q = leb q.cap (length q.inner)

  -- `Err(item)` on the left.
  unfoldable pub push_item : BoundedQueue T → T → BoundedQueue T × (T ⊎ Unit {0})
  push_item q item =
      if is_full q then (q, inl item) else (record q { inner = q.inner ++ item ∷ [] }, inr tt)

  unfoldable pub pop_item : BoundedQueue T → BoundedQueue T × Option T
  pop_item q = let (l, m) = pop_front q.inner in (record q { inner = l }, m)

  unfoldable pub pop_back : BoundedQueue T → BoundedQueue T × Option T
  pop_back q = let (l, m) = split_last q.inner in (record q { inner = l }, m)

  unfoldable pub push_front_item : BoundedQueue T → T → BoundedQueue T × (T ⊎ Unit {0})
  push_front_item q item =
      if is_full q then (q, inl item) else (record q { inner = item ∷ q.inner }, inr tt)

  unfoldable pub with_overflow : ℕ → OverflowStrategy → BoundedMsgQueue T
  with_overflow capacity overflow = record { inner = new_bounded capacity; overflow = overflow }

  unfoldable pub new : ℕ → BoundedMsgQueue T
  new capacity = with_overflow capacity fail

  -- The push after an overflow, with what was taken out to make room.
  unfoldable pub push_instead :
      BoundedMsgQueue T → BoundedQueue T × Option T → T → BoundedMsgQueue T × PushOutcome T
  push_instead q (popped, none) msg = (record q { inner = popped }, rejected msg)
  push_instead q (popped, some old) msg =
      let (pushed, result) = push_item popped msg in
      elim result [
        | inr ok ↦ (record q { inner = pushed }, dropped old)
        | inl m ↦ (record q { inner = pushed }, rejected m)
      ]

  unfoldable pub push_full : BoundedMsgQueue T → T → BoundedMsgQueue T × PushOutcome T
  push_full q msg = elim q.overflow [
    | fail ↦ (q, rejected msg)
    | drop_new ↦ (q, rejected msg)
    | drop_head ↦ push_instead q (pop_item q.inner) msg
    | drop_tail ↦ push_instead q (pop_back q.inner) msg
  ]

  unfoldable pub push_with_strategy : BoundedMsgQueue T → T → BoundedMsgQueue T × PushOutcome T
  push_with_strategy q msg =
      let (pushed, result) = push_item q.inner msg in
      if is_full q.inner then push_full q msg else elim result [
        | inr ok ↦ (record q { inner = pushed }, accepted)
        | inl m ↦ (record q { inner = pushed }, rejected m)
      ]

  unfoldable pub push : BoundedMsgQueue T → T → BoundedMsgQueue T × (T ⊎ Unit {0})
  push q msg =
      let (r, outcome) = push_with_strategy q msg in
      elim outcome [ accepted ↦ (r, inr tt) | dropped old ↦ (r, inl old) | rejected m ↦ (r, inl m) ]

  unfoldable pub pop : BoundedMsgQueue T → BoundedMsgQueue T × Option T
  pop q = let (inner, m) = pop_item q.inner in (record q { inner = inner }, m)
