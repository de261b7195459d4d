-- ===== src/Remote/AckedDelivery/Receive.antt =====
-- The receive buffer against the set of the sequence numbers it has seen.
use atomr.Base.{
  ℕ, zero, suc, ◌+◌, ◌%◌, ◌<◌, ◌≤◌, ◌≡◌, refl, Bool, true, false, not, ◌||◌, Option, none, some,
  arith, nat_eq, nat_beq_iff, leb, nat_beq, ◌∙◌, ap, sym, subst, if◌then◌else◌, u64_mod,
  Option-cases, Bool-cases, inl, inr,
}
use atomr.Map.{Map, get, insert, remove, size, is_some, get-insert, get-remove, size-remove}
use atomr.Remote.AckedDelivery.{AckedReceiveBuffer, settle, observe}

-- A sequence number has been observed.
unfoldable pub seen : AckedReceiveBuffer → ℕ → Bool
seen r n = leb n r.cumulative || is_some (get r.delivered n)

-- What is kept above the watermark are `u64` with a gap below them.
unfoldable pub IsValid : AckedReceiveBuffer → Type 0
IsValid r =
    (r.cumulative < u64_mod)
    × ((n : ℕ) → is_some (get r.delivered n) ≡ true → (r.cumulative + 1 < n) × (n < u64_mod))

bound : (r : AckedReceiveBuffer) → IsValid r → r.cumulative < u64_mod
unfolding IsValid
bound r v = v.0

-- Numbers kept above the watermark, before it has advanced.
IsAhead : ℕ → Map ℕ (Unit {0}) → Type 0
IsAhead c d = (n : ℕ) → is_some (get d n) ≡ true → (c < n) × (n < u64_mod)

next_of :
    (c : ℕ) (d : Map ℕ (Unit {0}))
    → c < u64_mod
    → IsAhead c d
    → is_some (get d ((c + 1) % u64_mod)) ≡ true
    → (c + 1) % u64_mod ≡ c + 1
unfolding IsAhead
next_of c d w a h = omega (arith, (a ((c + 1) % u64_mod) h).0, (a ((c + 1) % u64_mod) h).1)

remove-IsAhead : (c : ℕ) (d : Map ℕ (Unit {0})) → IsAhead c d → IsAhead (c + 1) (remove d (c + 1))
unfolding IsAhead
remove-IsAhead c d a n h = ground (arith, get-remove d (c + 1) n, a n)

some_size :
    (d : Map ℕ (Unit {0})) (n fuel : ℕ) (o : Option (Unit {0}))
    → get d n ≡ o
    → is_some o ≡ true
    → size d ≤ suc fuel
    → size (remove d n) ≤ fuel
some_size d n fuel none g h f = absurd (ground arith)
some_size d n fuel (some u) g h f = omega (arith, size-remove d n u g)

size_lem :
    (d : Map ℕ (Unit {0})) (n fuel : ℕ)
    → is_some (get d n) ≡ true
    → size d ≤ suc fuel
    → size (remove d n) ≤ fuel
size_lem d n fuel h f = some_size d n fuel (get d n) refl h f

settle_next :
    (fuel c : ℕ) (d : Map ℕ (Unit {0}))
    → c < u64_mod
    → IsAhead c d
    → is_some (get d ((c + 1) % u64_mod)) ≡ true
    → (settle (suc fuel) c d ≡ settle fuel (c + 1) (remove d (c + 1)))
      × (c + 1 < u64_mod)
      × (is_some (get d (c + 1)) ≡ true)
unfolding settle IsAhead
settle_next fuel c d w a h =
    let e = next_of c d w a h in
    (
      ap
            (λ b.
              if b
              then settle fuel ((c + 1) % u64_mod) (remove d ((c + 1) % u64_mod))
              else record { cumulative = c; delivered = d })
            h
          ∙ ap (λ n. settle fuel n (remove d n)) e,
      omega (arith, e),
      subst (λ n. is_some (get d n) ≡ true) e h,
    )

settle_stop :
    (fuel c : ℕ) (d : Map ℕ (Unit {0}))
    → is_some (get d ((c + 1) % u64_mod)) ≡ false
    → settle (suc fuel) c d ≡ record { cumulative = c; delivered = d }
unfolding settle
settle_stop fuel c d h = ground arith

stopped-IsValid :
    (c : ℕ) (d : Map ℕ (Unit {0}))
    → c < u64_mod
    → IsAhead c d
    → is_some (get d ((c + 1) % u64_mod)) ≡ false
    → IsValid (record { cumulative = c; delivered = d })
unfolding IsValid IsAhead
stopped-IsValid c d w a h = (w, λ n y. grind (arith, a n y))

nonempty : (d : Map ℕ (Unit {0})) (n : ℕ) → is_some (get d n) ≡ true → size d ≤ 0 → ⊥
nonempty d n y f = elim (Option-cases (get d n)) [
  | inl m ↦ ground (arith, m)
  | inr (u, g) ↦ omega (arith, size-remove d n u g)
]

empty-IsValid :
    (c : ℕ) (d : Map ℕ (Unit {0}))
    → c < u64_mod
    → size d ≤ 0
    → IsValid (record { cumulative = c; delivered = d })
unfolding IsValid size get
empty-IsValid c d w f = (w, λ n y. absurd (nonempty d n y f))

settle-IsValid :
    (fuel c : ℕ) (d : Map ℕ (Unit {0}))
    → c < u64_mod
    → IsAhead c d
    → size d ≤ fuel
    → IsValid (settle fuel c d)
unfolding settle
settle-IsValid zero c d w a f = empty-IsValid c d w f
settle-IsValid (suc fuel) c d w a f = elim (Bool-cases (is_some (get d ((c + 1) % u64_mod)))) [
  | inl h ↦
      let (e, w', y) = settle_next fuel c d w a h in
      subst IsValid (sym e) (
        settle-IsValid fuel (c + 1) (remove d (c + 1)) w' (remove-IsAhead c d a)
          (size_lem d (c + 1) fuel y f))
  | inr n ↦ subst IsValid (sym (settle_stop fuel c d n)) (stopped-IsValid c d w a n)
]

seen_one :
    (c n : ℕ) (d : Map ℕ (Unit {0}))
    → is_some (get d (c + 1)) ≡ true
    → (leb n (c + 1) || is_some (get (remove d (c + 1)) n)) ≡ (leb n c || is_some (get d n))
seen_one c n d y = ground (arith, get-remove d (c + 1) n, nat_beq_iff (c + 1) n)

seen-settle :
    (fuel c : ℕ) (d : Map ℕ (Unit {0})) (n : ℕ)
    → c < u64_mod
    → IsAhead c d
    → seen (settle fuel c d) n ≡ (leb n c || is_some (get d n))
unfolding seen settle
seen-settle zero c d n w a = refl
seen-settle (suc fuel) c d n w a = elim (Bool-cases (is_some (get d ((c + 1) % u64_mod)))) [
  | inl h ↦
      let (e, w', y) = settle_next fuel c d w a h in
      ap (λ r. seen r n) e
      ∙ seen-settle fuel (c + 1) (remove d (c + 1)) n w' (remove-IsAhead c d a)
      ∙ seen_one c n d y
  | inr m ↦ ap (λ r. seen r n) (settle_stop fuel c d m)
]

known : (r : AckedReceiveBuffer) (k : ℕ) → seen r k ≡ true → observe r k ≡ (r, false)
unfolding seen observe
known r k h = ground arith

-- The state that an observation of a new number leaves.
settled : AckedReceiveBuffer → ℕ → AckedReceiveBuffer
settled r k = settle (size (insert r.delivered k tt)) r.cumulative (insert r.delivered k tt)

fresh : (r : AckedReceiveBuffer) (k : ℕ) → seen r k ≡ false → observe r k ≡ (settled r k, true)
unfolding seen observe settled
fresh r k h = ground arith

insert-IsAhead :
    (r : AckedReceiveBuffer) (k : ℕ)
    → IsValid r
    → k < u64_mod
    → seen r k ≡ false
    → IsAhead r.cumulative (insert r.delivered k tt)
unfolding IsValid seen IsAhead
insert-IsAhead r k v w h n y = ground (arith, get-insert r.delivered k tt n, v.1 n, nat_beq_iff k n)

seen-settled :
    (r : AckedReceiveBuffer) (k n : ℕ)
    → IsValid r
    → k < u64_mod
    → seen r k ≡ false
    → seen (settled r k) n ≡ (seen r n || nat_beq k n)
unfolding settled seen IsValid
seen-settled r k n v w h =
    seen-settle (size (insert r.delivered k tt)) r.cumulative (insert r.delivered k tt) n v.0
      (insert-IsAhead r k v w h)
    ∙ ground (arith, get-insert r.delivered k tt n)

settled-IsValid :
    (r : AckedReceiveBuffer) (k : ℕ)
    → IsValid r
    → k < u64_mod
    → seen r k ≡ false
    → IsValid (settled r k)
unfolding settled
settled-IsValid r k v w h =
    settle-IsValid (size (insert r.delivered k tt)) r.cumulative (insert r.delivered k tt)
      (bound r v) (insert-IsAhead r k v w h) (omega arith)

seen_again :
    (r : AckedReceiveBuffer) (k n : ℕ) → seen r k ≡ true → seen r n ≡ (seen r n || nat_beq k n)
seen_again r k n h =
    let same : (k ≡ n → seen r k ≡ seen r n) = λ e. ap (λ i. seen r i) e in
    ground (arith, nat_beq_iff k n)

-- An observation tells whether the number is new, and what has been seen then is that and what
-- had been seen before, however far the watermark moves.
pub observe-Sees :
    (r : AckedReceiveBuffer) (k n : ℕ)
    → IsValid r
    → k < u64_mod
    → ((observe r k).1 ≡ not (seen r k)) × (seen (observe r k).0 n ≡ (seen r n || nat_beq k n))
observe-Sees r k n v w = elim (Bool-cases (seen r k)) [
  | inl h ↦ rw (known r k h) (ground arith, seen_again r k n h)
  | inr h ↦ rw (fresh r k h) (ground arith, seen-settled r k n v w h)
]

-- The buffer stays well-formed: the number just above the watermark is never kept, so the watermark
-- is the greatest below which nothing is missing.
pub observe-IsValid :
    (r : AckedReceiveBuffer) (k : ℕ) → IsValid r → k < u64_mod → IsValid (observe r k).0
observe-IsValid r k v w = elim (Bool-cases (seen r k)) [
  | inl h ↦ rw (known r k h) v
  | inr h ↦ rw (fresh r k h) (settled-IsValid r k v w h)
]
