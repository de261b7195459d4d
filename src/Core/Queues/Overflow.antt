-- ===== src/Core/Queues/Overflow.antt =====
-- A bounded mailbox loses no message without saying so.
use atomr.Base.{
  ℕ, ◌+◌, ◌≤◌, ◌<◌, ◌≡◌, refl, Bool, true, false, ◌⊎◌, inl, inr, Option, none, some, List, [], ◌∷◌,
  ◌++◌, arith, ap, ◌∙◌, leb, if◌then◌else◌, length, length-append, Bool-cases,
}
use atomr.Core.Queues.Fifo.{pop_front}
use atomr.Core.Queues.Bounded.{
  OverflowStrategy, drop_new, drop_head, drop_tail, fail, BoundedQueue, PushOutcome, accepted,
  dropped, rejected, BoundedMsgQueue, split_last, is_full, push_item, pop_item, pop_back,
  push_instead, push_full, push_with_strategy,
}

-- How many messages pass a test.
unfoldable pub tally : {T : Type 0} → (T → Bool) → List T → ℕ
tally test [] = 0
tally test (m ∷ l) = (if test m then 1 else 0) + tally test l

-- The message that is given back.
unfoldable pub lost : {T : Type 0} → PushOutcome T → List T
lost accepted = []
lost (dropped m) = m ∷ []
lost (rejected m) = m ∷ []

listed : {T : Type 0} → Option T → List T
listed none = []
listed (some m) = m ∷ []

unfoldable pub IsBounded : {T : Type 0} → BoundedMsgQueue T → Type 0
IsBounded q = length q.inner.inner ≤ q.inner.cap

module _ {T : Type 0} (test : T → Bool) where
  tally-append : (l m : List T) → tally test (l ++ m) ≡ tally test l + tally test m
  unfolding tally
  tally-append [] m = omega arith
  tally-append (x ∷ l) m = omega (arith, tally-append l m)

  -- What a push that gives back `o` and leaves `r` must keep of `q`.
  unfoldable pub Keeps : BoundedMsgQueue T → T → BoundedMsgQueue T × PushOutcome T → Type 0
  Keeps q msg (r, o) =
      (length r.inner.inner ≤ q.inner.cap)
      × (tally test r.inner.inner + tally test (lost o)
          ≡ tally test q.inner.inner + tally test (msg ∷ []))

  rejected-Keeps : (q : BoundedMsgQueue T) (msg : T) → IsBounded q → Keeps q msg (q, rejected msg)
  unfolding IsBounded Keeps lost
  rejected-Keeps q msg b = (b, refl)

  accepted-Keeps :
      (q : BoundedMsgQueue T) (msg : T)
      → is_full q.inner ≡ false
      → IsBounded q
      → Keeps q msg
          (record q { inner = record q.inner { inner = q.inner.inner ++ msg ∷ [] } }, accepted)
  unfolding IsBounded Keeps lost is_full tally
  accepted-Keeps q msg h b = (
    ground (arith, length-append q.inner.inner (msg ∷ [])),
    omega (arith, tally-append q.inner.inner (msg ∷ [])),
  )

  -- A message taken out of a list, and what is left.
  IsTaken : List T → List T × Option T → Type 0
  IsTaken l (rest, o) =
      (tally test rest + tally test (listed o) ≡ tally test l)
      × (length rest + length (listed o) ≡ length l)

  pop_front-IsTaken : (l : List T) → IsTaken l (pop_front l)
  unfolding IsTaken listed pop_front tally
  pop_front-IsTaken [] = (refl, refl)
  pop_front-IsTaken (m ∷ l) = (omega arith, omega arith)

  split_last-IsTaken : (l : List T) → IsTaken l (split_last l)
  unfolding IsTaken listed split_last tally
  split_last-IsTaken [] = (refl, refl)
  split_last-IsTaken (m ∷ []) = (omega arith, refl)
  split_last-IsTaken (m ∷ n ∷ l) =
      let (t, s) = split_last-IsTaken (n ∷ l) in (omega (arith, t), omega (arith, s))

  pushed :
      (q : BoundedQueue T) (item : T)
      → is_full q ≡ false
      → push_item q item ≡ (record q { inner = q.inner ++ item ∷ [] }, inr tt)
  unfolding push_item
  pushed q item h =
      ap (λ b. if b then (q, inl item) else (record q { inner = q.inner ++ item ∷ [] }, inr tt)) h

  made_room :
      (q : BoundedMsgQueue T) (msg old : T) (front : List T)
      → length front < q.inner.cap
      → push_instead q (record q.inner { inner = front }, some old) msg
        ≡ (record q { inner = record q.inner { inner = front ++ msg ∷ [] } }, dropped old)
  unfolding push_instead is_full
  made_room q msg old front b =
      let room : (leb q.inner.cap (length front) ≡ false) = ground arith in
      ap
        (λ (p : BoundedQueue T × (T ⊎ Unit {0})). elim p.1 [
          | inr ok ↦ (record q { inner = p.0 }, dropped old)
          | inl m ↦ (record q { inner = p.0 }, rejected m)
        ])
        (pushed (record q.inner { inner = front }) msg room)

  instead-Keeps :
      (q : BoundedMsgQueue T) (msg : T) (front : List T) (o : Option T)
      → IsBounded q
      → IsTaken q.inner.inner (front, o)
      → Keeps q msg (push_instead q (record q.inner { inner = front }, o) msg)
  unfolding Keeps lost IsTaken listed IsBounded push_instead tally
  instead-Keeps q msg front none b (t, s) = (omega (arith, b, s), omega (arith, t))
  instead-Keeps q msg front (some old) b (t, s) =
      rw (made_room q msg old front (omega (arith, b, s))) (
        omega (arith, b, s, length-append front (msg ∷ [])),
        omega (arith, t, tally-append front (msg ∷ [])),
      )

  full-Keeps :
      (q : BoundedMsgQueue T) (msg : T) (o : OverflowStrategy)
      → q.overflow ≡ o
      → IsBounded q
      → Keeps q msg (push_full q msg)
  unfolding push_full pop_item pop_back Keeps
  full-Keeps q msg drop_new e b = rw (push_full, e) (rejected-Keeps q msg b)
  full-Keeps q msg drop_head e b =
      rw (push_full, e) (instead-Keeps q msg _ _ b (pop_front-IsTaken q.inner.inner))
  full-Keeps q msg drop_tail e b =
      rw (push_full, e) (instead-Keeps q msg _ _ b (split_last-IsTaken q.inner.inner))
  full-Keeps q msg fail e b = rw (push_full, e) (rejected-Keeps q msg b)

  -- With room in the queue.
  accepted_lem :
      (q : BoundedMsgQueue T) (msg : T)
      → is_full q.inner ≡ false
      → push_with_strategy q msg
        ≡ (record q { inner = record q.inner { inner = q.inner.inner ++ msg ∷ [] } }, accepted)
  unfolding push_with_strategy
  accepted_lem q msg h =
      let outcome : (BoundedQueue T × (T ⊎ Unit {0}) → BoundedMsgQueue T × PushOutcome T) = λ p.
        elim p.1 [
          | inr ok ↦ (record q { inner = p.0 }, accepted)
          | inl m ↦ (record q { inner = p.0 }, rejected m)
        ] in
      ap (λ b. if b then push_full q msg else outcome (push_item q.inner msg)) h
      ∙ ap outcome (pushed q.inner msg h)

  full_lem :
      (q : BoundedMsgQueue T) (msg : T)
      → is_full q.inner ≡ true
      → push_with_strategy q msg ≡ push_full q msg
  unfolding push_with_strategy
  full_lem q msg h = rw (push_with_strategy, h) refl

  -- Whatever the strategy, a push leaves the queue within its capacity, and every message that was in
  -- the queue or is pushed is then either in the queue or given back, as often as before.
  pub push_with_strategy-Keeps :
      (q : BoundedMsgQueue T) (msg : T) → IsBounded q → Keeps q msg (push_with_strategy q msg)
  push_with_strategy-Keeps q msg b = elim (Bool-cases (is_full q.inner)) [
    | inl h ↦ rw (full_lem q msg h) (full-Keeps q msg q.overflow refl b)
    | inr h ↦ rw (accepted_lem q msg h) (accepted-Keeps q msg h b)
  ]
