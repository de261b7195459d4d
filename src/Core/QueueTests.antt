-- ===== src/Core/QueueTests.antt =====
-- The theorems on mailbox queues at concrete queues.
use atomr.Base.{ℕ, ◌≡◌, some, [], ◌∷◌, arith, nat_beq, ℤ, pos}
use atomr.Core.Queues.Bounded.{BoundedMsgQueue, drop_head, push_with_strategy}
use atomr.Core.Queues.Priority.{Prioritized, new_stable}
use atomr.Core.Queues.Overflow.{Keeps, IsBounded, push_with_strategy-Keeps}
use atomr.Core.Queues.Stable.{answers, specified, pushes, pops, take_first, taken, stable_refines}

-- Full, with 7 the oldest message.
abbrev crowded : BoundedMsgQueue ℕ
crowded = record { inner = record { cap = 2; inner = 7 ∷ 8 ∷ [] }; overflow = drop_head }

crowded-IsBounded : IsBounded crowded
unfolding IsBounded
crowded-IsBounded = omega arith

push_with_strategy-Keeps_example : Keeps (λ n. nat_beq n 7) crowded 9 (push_with_strategy crowded 9)
push_with_strategy-Keeps_example =
    push_with_strategy-Keeps (λ n. nat_beq n 7) crowded 9 crowded-IsBounded

-- A message is its priority and a name.
instance abbrev by_rank : Prioritized (ℤ × ℕ)
by_rank = record { priority = λ m. m.0 }

stable_refines_example :
    answers {T = ℤ × ℕ} new_stable
      (pushes (pos 1, 10) ∷ pushes (pos 5, 20) ∷ pushes (pos 5, 30) ∷ pops ∷ pops ∷ pops ∷ [])
    ≡ some (pos 5, 20) ∷ some (pos 5, 30) ∷ some (pos 1, 10) ∷ []
unfolding specified take_first taken
stable_refines_example =
    stable_refines
      (pushes (pos 1, 10) ∷ pushes (pos 5, 20) ∷ pushes (pos 5, 30) ∷ pops ∷ pops ∷ pops ∷ [])
      (omega arith)
