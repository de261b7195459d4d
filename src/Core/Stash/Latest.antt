-- ===== src/Core/Stash/Latest.antt =====
-- What is left in a stash that drops the oldest message.
use atomr.Base.{
  ℕ, zero, suc, ◌+◌, ◌-◌, ◌≤◌, ◌≡◌, refl, sym, ap, ◌∙◌, List, [], ◌∷◌, ◌++◌, arith, leb, length,
  length-append, drop, drop-drop, length-drop, Bool-cases, inl, inr,
}
use mathlib.Core.List.{append_assoc, append-nil}
use atomr.Core.Queues.Fifo.{pop_front}
use atomr.Core.Stash.{
  BoundedStash, drop_oldest, stash, stash_full, displace, is_full, unstash_all, new,
}

module _ {M : Type 0} where
  unfoldable pub stash_each : BoundedStash M → List M → BoundedStash M
  stash_each s [] = s
  stash_each s (m ∷ ms) = stash_each (stash s m).0 ms

  -- The last `n` of a list.
  unfoldable pub last_of : ℕ → List M → List M
  last_of n l = drop (length l - n) l

  drop_within : (k : ℕ) (l m : List M) → k ≤ length l → drop k l ++ m ≡ drop k (l ++ m)
  drop_within zero l m h = refl
  drop_within (suc k) [] m h = absurd (omega (arith, h))
  drop_within (suc k) (x ∷ l) m h = drop_within k l m (omega (arith, h))

  room : (n : ℕ) (l : List M) (m : M) → length l + 1 ≤ n → last_of n (l ++ m ∷ []) ≡ l ++ m ∷ []
  unfolding last_of
  room n l m h =
      let e = length-append l (m ∷ []) in
      let none_over : (length (l ++ m ∷ []) - n ≡ 0) = omega (arith, e, h) in
      ap (λ k. drop k (l ++ m ∷ [])) none_over

  holding : ℕ → List M → BoundedStash M
  holding n l = record { capacity = n; policy = drop_oldest; buf = l }

  displaced :
      (n : ℕ) (l : List M) (m : M)
      → 1 ≤ n
      → length l ≡ n
      → (displace (holding n l) (pop_front l) m).0 ≡ holding n (last_of n (l ++ m ∷ []))
  unfolding last_of displace pop_front holding
  displaced n [] m h e = absurd (omega (arith, h, e))
  displaced n (x ∷ l) m h e =
      let k = length-append (x ∷ l) (m ∷ []) in
      let one : (1 ≡ length (x ∷ l ++ m ∷ []) - n) = omega (arith, k, e) in
      ap (λ i. holding n (drop i (x ∷ l ++ m ∷ []))) one

  stash_lem :
      (n : ℕ) (l : List M) (m : M)
      → 1 ≤ n
      → length l ≤ n
      → (stash (holding n l) m).0 ≡ holding n (last_of n (l ++ m ∷ []))
  unfolding stash stash_full is_full holding
  stash_lem n l m h b = elim (Bool-cases (leb n (length l))) [
    | inl f ↦ rw (stash, is_full, f) (displaced n l m h (ground arith))
    | inr f ↦ rw (stash, is_full, f) (ap (holding n) (sym (room n l m (ground arith))))
  ]

  last_of-append : (n : ℕ) (l m : List M) → last_of n (last_of n l ++ m) ≡ last_of n (l ++ m)
  unfolding last_of
  last_of-append n l m =
      let k = length l - n in
      let inner = drop_within k l m (omega arith) in
      let size = length-drop k (l ++ m) in
      let total = length-append l m in
      let sum : (k + (length (drop k (l ++ m)) - n) ≡ length (l ++ m) - n) =
        omega (arith, size, total) in
      ap (λ (t : List M). drop (length t - n) t) inner
      ∙ drop-drop k (length (drop k (l ++ m)) - n) (length (l ++ m) - n) (l ++ m) sum

  length-last_of : (n : ℕ) (l : List M) → length (last_of n l) ≤ n
  unfolding last_of
  length-last_of n l = omega (arith, length-drop (length l - n) l)

  last_of_all : (n : ℕ) (l : List M) → length l ≤ n → last_of n l ≡ l
  unfolding last_of
  last_of_all n l h =
      let none_over : (length l - n ≡ 0) = omega (arith, h) in ap (λ k. drop k l) none_over

  stash_each-holding :
      (n : ℕ) (l ms : List M)
      → 1 ≤ n
      → length l ≤ n
      → stash_each (holding n l) ms ≡ holding n (last_of n (l ++ ms))
  unfolding stash_each
  stash_each-holding n l [] h b =
      ap (holding n) (sym (last_of_all n l b) ∙ ap (last_of n) (sym (append-nil l)))
  stash_each-holding n l (m ∷ ms) h b =
      ap (λ s. stash_each s ms) (stash_lem n l m h b)
      ∙ stash_each-holding n (last_of n (l ++ m ∷ [])) ms h (length-last_of n (l ++ m ∷ []))
      ∙ ap (holding n)
          (last_of-append n (l ++ m ∷ []) ms ∙ ap (last_of n) (append_assoc l (m ∷ []) ms))

  -- A stash of capacity `n` that drops the oldest message gives back, whatever is stashed in it, the
  -- last `n` messages, in their order.
  pub latest_kept :
      (n : ℕ) (ms : List M)
      → 1 ≤ n
      → (unstash_all (stash_each (new n drop_oldest) ms)).1 ≡ last_of n ms
  unfolding unstash_all new holding
  latest_kept n ms h = ap (λ s. (unstash_all s).1) (stash_each-holding n [] ms h (omega arith))
