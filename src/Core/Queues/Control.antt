-- ===== src/Core/Queues/Control.antt =====
-- Control messages come before all user messages, each kind in its order.
use atomr.Base.{
  ℕ, zero, suc, ◌+◌, ◌≡◌, refl, ap, ◌∙◌, none, some, List, [], ◌∷◌, ◌++◌, arith, length,
}
use mathlib.Core.List.{append_assoc, append-nil}
use atomr.Core.Queues.Fifo.{
  pop_front, ControlAware, control, user, ControlAwareQueue, push_control_aware, pop_control_aware,
  len_control_aware,
}

suc-add : (a b : ℕ) → suc a + b ≡ suc (a + b)
suc-add a b = omega arith

module _ {T : Type 0} where
  unfoldable pub push_all : ControlAwareQueue T → List (ControlAware T) → ControlAwareQueue T
  push_all q [] = q
  push_all q (m ∷ ms) = push_all (push_control_aware q m) ms

  -- The messages of up to `n` pops.
  unfoldable pub popped : ℕ → ControlAwareQueue T → List T
  popped zero q = []
  popped (suc n) q =
      let (r, o) = pop_control_aware q in
      let rest = popped n r in elim o [ none ↦ [] | some m ↦ m ∷ rest ]

  unfoldable pub controls : List (ControlAware T) → List T
  controls [] = []
  controls (control m ∷ ms) = m ∷ controls ms
  controls (user m ∷ ms) = controls ms

  unfoldable pub users : List (ControlAware T) → List T
  users [] = []
  users (control m ∷ ms) = users ms
  users (user m ∷ ms) = m ∷ users ms

  popped-users : (u : List T) → popped (length u) (record { control = []; user = u }) ≡ u
  unfolding popped pop_control_aware pop_front
  popped-users [] = refl
  popped-users (m ∷ u) = ap (λ l. m ∷ l) (popped-users u)

  popped-all :
      (c u : List T) → popped (length c + length u) (record { control = c; user = u }) ≡ c ++ u
  unfolding popped pop_control_aware
  popped-all [] u =
      ap (λ n. popped n (record { control = []; user = u })) (omega arith) ∙ popped-users u
  popped-all (m ∷ c) u =
      ap (λ n. popped n (record { control = m ∷ c; user = u })) (suc-add (length c) (length u))
      ∙ ap (λ l. m ∷ l) (popped-all c u)

  pushed :
      (c u : List T) (ms : List (ControlAware T))
      → push_all (record { control = c; user = u }) ms
        ≡ record { control = c ++ controls ms; user = u ++ users ms }
  unfolding push_all push_control_aware controls users
  pushed c u [] = simp append-nil refl
  pushed c u (control m ∷ ms) = pushed (c ++ m ∷ []) u ms ∙ simp append_assoc refl
  pushed c u (user m ∷ ms) = pushed c (u ++ m ∷ []) ms ∙ simp append_assoc refl

  -- Whatever messages are pushed onto an empty queue: popped until it is empty, it gives all control
  -- messages and then all user messages, each kind in the order in which it came.
  pub control_first :
      (ms : List (ControlAware T))
      → popped
          (len_control_aware (push_all (record { control = []; user = [] }) ms))
          (push_all (record { control = []; user = [] }) ms)
        ≡ controls ms ++ users ms
  unfolding len_control_aware
  control_first ms =
      ap (λ q. popped (length q.control + length q.user) q) (pushed [] [] ms)
      ∙ popped-all (controls ms) (users ms)
