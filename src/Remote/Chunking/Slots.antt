-- ===== src/Remote/Chunking/Slots.antt =====
-- The slots of a pending message as a function of the indices that have come.
use atomr.Base.{
  ℕ, zero, suc, ◌+◌, ◌<◌, ◌≤◌, ◌≡◌, refl, Bool, true, not, ◌&&◌, Option, none, some, List, [], ◌∷◌,
  arith, nat_eq, nat_beq_iff, length, get_elem?, if◌then◌else◌, leb,
}
use atomr.Map.{elem}
use atomr.Remote.Chunking.{fill, concatenate, empty_slots}
use atomr.Remote.Chunking.Split.{joined}

-- The parts from index `i` on, each in its slot if its index has come.
unfoldable pub slots : ℕ → List ℕ → List (List ℕ) → List (Option (List ℕ))
slots i seen [] = []
slots i seen (p ∷ ps) = (if elem i seen then some p else none) ∷ slots (suc i) seen ps

unfoldable pub held : ℕ → List ℕ → List (List ℕ) → ℕ
held i seen [] = 0
held i seen (p ∷ ps) = (if elem i seen then 1 else 0) + held (suc i) seen ps

-- All of the `n` indices from `i` on have come.
unfoldable pub covers : ℕ → ℕ → List ℕ → Bool
covers i zero seen = true
covers i (suc n) seen = elem i seen && covers (suc i) n seen

slots_earlier :
    (i k : ℕ) (seen : List ℕ) (ps : List (List ℕ))
    → k < i
    → (slots i (k ∷ seen) ps ≡ slots i seen ps) × (held i (k ∷ seen) ps ≡ held i seen ps)
unfolding slots held elem
slots_earlier i k seen [] h = (refl, refl)
slots_earlier i k seen (p ∷ ps) h =
    ground (arith, nat_beq_iff k i, slots_earlier (suc i) k seen ps (omega (arith, h)))

pub fill-slots :
    (i k j : ℕ) (seen : List ℕ) (ps : List (List ℕ)) (p : List ℕ)
    → i + k ≡ j
    → get_elem? ps k ≡ some p
    → (fill k p (slots i seen ps) ≡ (slots i (j ∷ seen) ps, not (elem j seen)))
      × (held i (j ∷ seen) ps ≡ (if elem j seen then held i seen ps else held i seen ps + 1))
unfolding slots held elem fill
fill-slots i k j seen [] p s e = absurd (cc e)
fill-slots i zero j seen (q ∷ ps) p s e =
    ground (arith, nat_beq_iff j i, slots_earlier (suc i) j seen ps (omega (arith, s)))
fill-slots i (suc k) j seen (q ∷ ps) p s e =
    ground (arith, nat_beq_iff j i, fill-slots (suc i) k j seen ps p (omega (arith, s)) e)

pub held-le : (i : ℕ) (seen : List ℕ) (ps : List (List ℕ)) → held i seen ps ≤ length ps
unfolding held
held-le i seen [] = omega arith
held-le i seen (p ∷ ps) = ground (arith, held-le (suc i) seen ps)

pub covers-held :
    (i : ℕ) (seen : List ℕ) (ps : List (List ℕ))
    → covers i (length ps) seen ≡ leb (length ps) (held i seen ps)
unfolding covers held
covers-held i seen [] = ground arith
covers-held i seen (p ∷ ps) = ground (arith, covers-held (suc i) seen ps, held-le (suc i) seen ps)

pub concatenate-slots :
    (i : ℕ) (seen : List ℕ) (ps : List (List ℕ))
    → covers i (length ps) seen ≡ true
    → concatenate (slots i seen ps) ≡ joined ps
unfolding covers slots concatenate joined
concatenate-slots i seen [] h = refl
concatenate-slots i seen (p ∷ ps) h = ground (arith, concatenate-slots (suc i) seen ps)

pub slots-nil :
    (i : ℕ) (ps : List (List ℕ)) → (slots i [] ps ≡ empty_slots (length ps)) × (held i [] ps ≡ 0)
unfolding slots held empty_slots elem
slots-nil i [] = (refl, refl)
slots-nil i (p ∷ ps) = ground (arith, slots-nil (suc i) ps)
