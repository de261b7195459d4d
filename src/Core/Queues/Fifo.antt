-- ===== src/Core/Queues/Fifo.antt =====
-- The unbounded queues of crates/atomr-core/src/dispatch/message_queues.rs.
use atomr.Base.{ℕ, ◌+◌, Bool, true, false, ◌&&◌, Option, none, some, List, [], ◌∷◌, ◌++◌, length}

-- `pop_front`: the queue that is left, and the message.
unfoldable pub pop_front : {T : Type 0} → List T → List T × Option T
pop_front [] = ([], none)
pop_front (m ∷ l) = (l, some m)

abbrev pub is_nil : {T : Type 0} → List T → Bool
is_nil [] = true
is_nil (m ∷ l) = false

pub record UnboundedQueue (T : Type 0) : Type 0 where
  pub inner : List T

pub record DequeQueue (T : Type 0) : Type 0 where
  pub inner : List T

pub data ControlAware (T : Type 0) : Type 0 where
  control : T → ControlAware T
  user : T → ControlAware T

pub record ControlAwareQueue (T : Type 0) : Type 0 where
  pub control : List T
  pub user : List T

module _ {T : Type 0} where
  unfoldable pub push_unbounded : UnboundedQueue T → T → UnboundedQueue T
  push_unbounded q msg = record { inner = q.inner ++ msg ∷ [] }

  unfoldable pub pop_unbounded : UnboundedQueue T → UnboundedQueue T × Option T
  pop_unbounded q = let (l, m) = pop_front q.inner in (record { inner = l }, m)

  unfoldable pub len_unbounded : UnboundedQueue T → ℕ
  len_unbounded q = length q.inner

  unfoldable pub push_back : DequeQueue T → T → DequeQueue T
  push_back q msg = record { inner = q.inner ++ msg ∷ [] }

  unfoldable pub push_front : DequeQueue T → T → DequeQueue T
  push_front q msg = record { inner = msg ∷ q.inner }

  unfoldable pub pop_deque : DequeQueue T → DequeQueue T × Option T
  pop_deque q = let (l, m) = pop_front q.inner in (record { inner = l }, m)

  unfoldable pub push_control_aware : ControlAwareQueue T → ControlAware T → ControlAwareQueue T
  push_control_aware q (control m) = record q { control = q.control ++ m ∷ [] }
  push_control_aware q (user m) = record q { user = q.user ++ m ∷ [] }

  unfoldable pub pop_control_aware : ControlAwareQueue T → ControlAwareQueue T × Option T
  pop_control_aware q = elim q.control [
    | m ∷ l ↦ (record q { control = l }, some m)
    | [] ↦ let (l, m) = pop_front q.user in (record q { user = l }, m)
  ]

  unfoldable pub len_control_aware : ControlAwareQueue T → ℕ
  len_control_aware q = length q.control + length q.user

  unfoldable pub is_empty_control_aware : ControlAwareQueue T → Bool
  is_empty_control_aware q = is_nil q.control && is_nil q.user
