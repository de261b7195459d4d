-- ===== src/Persistence/Journal/Numbers.antt =====
-- The numbers of a stream.
use atomr.Base.{
  ℕ, suc, ◌+◌, ◌<◌, ◌≡◌, refl, ap, inl, inr, Option-cases, Option, none, some, List, [], ◌∷◌, ◌++◌,
  length, arith, u64_mod,
}
use atomr.Persistence.Journal.{PersistentRepr, last, next_nr, mark_to}

abbrev nr_of_some : Option PersistentRepr → ℕ
nr_of_some none = 0
nr_of_some (some r) = r.sequence_nr

-- The events are numbered from `n` on, without a gap.
abbrev pub Numbered : ℕ → List PersistentRepr → Type 0
Numbered n [] = Unit
Numbered n (r ∷ l) = (r.sequence_nr ≡ n) × Numbered (suc n) l

pub Numbered-snoc :
    (n : ℕ) (l : List PersistentRepr) (r : PersistentRepr)
    → Numbered n l
    → r.sequence_nr ≡ n + length l
    → Numbered n (l ++ r ∷ [])
Numbered-snoc n [] r h e = (omega (arith, e), tt)
Numbered-snoc n (s ∷ l) r h e = (h.0, Numbered-snoc (suc n) l r h.1 (omega (arith, e)))

pub last_nr :
    (n : ℕ) (l : List PersistentRepr) (r : PersistentRepr)
    → Numbered n l
    → last l ≡ some r
    → r.sequence_nr + 1 ≡ n + length l
unfolding last
last_nr n [] r h e = absurd (cc e)
last_nr n (s ∷ []) r h e =
    let same : s.sequence_nr ≡ r.sequence_nr = ap nr_of_some e in omega (arith, h.0)
last_nr n (s ∷ t ∷ l) r h e = omega (arith, last_nr (suc n) (t ∷ l) r h.1 e)

pub last-none : (l : List PersistentRepr) → last l ≡ none → l ≡ []
unfolding last
last-none [] e = refl
last-none (r ∷ []) e = absurd (cc e)
last-none (r ∷ s ∷ l) e = absurd (cc (last-none (s ∷ l) e))

-- The number that the next event has to have.
pub next_nr-last :
    (l : List PersistentRepr)
    → Numbered 1 l
    → length l + 1 < u64_mod
    → next_nr (last l) ≡ length l + 1
unfolding next_nr
next_nr-last l h small = elim (Option-cases (last l)) [
  | inl e ↦ rw e (rw (last-none l e) refl)
  | inr (r, e) ↦ let nr = last_nr 1 l r h e in rw e (omega (arith, nr))
]

pub mark_to-Numbered :
    (to n : ℕ) (l : List PersistentRepr) → Numbered n l → Numbered n (mark_to to l)
unfolding mark_to
mark_to-Numbered to n [] h = tt
mark_to-Numbered to n (r ∷ l) h = (ground (arith, h.0), mark_to-Numbered to (suc n) l h.1)
