-- ===== src/Ddata/Pruning/Replies.antt =====
-- When a write is decided.
use atomr.Base.{
  ℕ, u64_mod, ◌+◌, ◌≤◌, ◌<◌, ◌≡◌, refl, ◌⊎◌, inl, inr, Bool, true, false, not, ◌&&◌, ltb→lt,
  Bool-cases, List, [], ◌∷◌, length, arith, ltb, max, if◌then◌else◌,
}
use atomr.Ddata.Replicator.{WriteConsistency, local, everyone, majority, from, required_acks}
use atomr.Ddata.Pruning.{WriteAggregator, new_write, ack, nack, is_satisfied, is_failed}

-- The answers of replicas, in the order in which they come: true for an ack.
unfoldable pub answered : WriteAggregator → List Bool → WriteAggregator
answered w [] = w
answered w (yes_ ∷ l) = answered (if yes_ then ack w else nack w) l

counts :
    (l : List Bool) (w : WriteAggregator)
    → w.received + w.nacks + length l < u64_mod
    → ((answered w l).target ≡ w.target)
      × ((answered w l).received + (answered w l).nacks ≡ w.received + w.nacks + length l)
unfolding answered ack nack
counts [] w h = (refl, omega arith)
counts (true ∷ l) w h = ground (arith, counts l (ack w))
counts (false ∷ l) w h = ground (arith, counts l (nack w))

target_fits : (c : WriteConsistency) (n : ℕ) → 0 < n → max (required_acks c n) 1 ≤ n
unfolding required_acks
target_fits local n h = omega arith
target_fits everyone n h = omega arith
target_fits majority n h = omega arith
target_fits (from k) n h = omega arith

-- In a cluster that is not empty and fewer than 2 ^ 64, while no more answers have come than there are replicas, a write at any
-- consistency level is never both satisfied and failed; once each has answered it is one of the two.
pub write-settles :
    (c : WriteConsistency) (n : ℕ) (l : List Bool)
    → 0 < n
    → n < u64_mod
    → length l ≤ n
    → ((is_satisfied (answered (new_write (required_acks c n)) l)
          && is_failed (answered (new_write (required_acks c n)) l) n)
        ≡ false)
      × ((length l < n)
          ⊎ (is_satisfied (answered (new_write (required_acks c n)) l)
              ≡ not (is_failed (answered (new_write (required_acks c n)) l) n)))
unfolding is_satisfied is_failed
write-settles c n l h m k =
    let w = answered (new_write (required_acks c n)) l in
    let total =
      counts l (new_write (required_acks c n)) (unfold new_write in omega (arith, m, k)) in
    let start : (new_write (required_acks c n)).target ≡ max (required_acks c n) 1 =
      unfold new_write in refl in
    let none_yet : (new_write (required_acks c n)).received + (new_write (required_acks c n)).nacks
        ≡ 0 =
      unfold new_write in refl in
    let fits = target_fits c n h in
    (
      ground arith,
      elim (Bool-cases (ltb (length l) n)) [
        | inl e ↦ inl (ltb→lt (length l) n e)
        | inr e ↦ inr (ground arith)
      ],
    )
