-- ===== src/Base/Slices.antt =====
-- Slices `l[..n]` and `l[n..]`, and `l.get(i)`, on native numbers.
use Prim.Native.Nat.{ℕ, zero, suc, ◌+◌, ◌-◌, min}
use mathlib.Core.Path.{◌≡◌, refl, ap}
use mathlib.Core.Option.{Option, none, some}
use mathlib.Core.List.{List, [], ◌∷◌, ◌++◌}
use native.Mathlib.Omega.{arith}
use atomr.Base.Lists.{length, All}

module _ {ℓ} {A : Type ℓ} where
  abbrev pub take : ℕ → List A → List A
  take zero l = []
  take (suc n) [] = []
  take (suc n) (x ∷ l) = x ∷ take n l

  abbrev pub drop : ℕ → List A → List A
  drop zero l = l
  drop (suc n) [] = []
  drop (suc n) (x ∷ l) = drop n l

  abbrev pub get_elem? : List A → ℕ → Option A
  get_elem? [] i = none
  get_elem? (x ∷ l) zero = some x
  get_elem? (x ∷ l) (suc i) = get_elem? l i

  pub append-take-drop : (n : ℕ) (l : List A) → take n l ++ drop n l ≡ l
  append-take-drop zero l = refl
  append-take-drop (suc n) [] = refl
  append-take-drop (suc n) (x ∷ l) = ap (λ k. x ∷ k) (append-take-drop n l)

  pub length-take : (n : ℕ) (l : List A) → length (take n l) ≡ min n (length l)
  length-take zero l = omega arith
  length-take (suc n) [] = omega arith
  length-take (suc n) (x ∷ l) = omega (arith, length-take n l)

  pub length-drop : (n : ℕ) (l : List A) → length (drop n l) ≡ length l - n
  length-drop zero l = omega arith
  length-drop (suc n) [] = omega arith
  length-drop (suc n) (x ∷ l) = omega (arith, length-drop n l)

  -- A slice that ends where the first of two joined lists ends.
  pub take-append : (n : ℕ) (l m : List A) → length l ≡ n → take n (l ++ m) ≡ l
  take-append zero [] m h = refl
  take-append zero (x ∷ l) m h = absurd (omega (arith, h))
  take-append (suc n) [] m h = absurd (omega (arith, h))
  take-append (suc n) (x ∷ l) m h = ap (λ k. x ∷ k) (take-append n l m (omega (arith, h)))

  pub drop-append : (n : ℕ) (l m : List A) → length l ≡ n → drop n (l ++ m) ≡ m
  drop-append zero [] m h = refl
  drop-append zero (x ∷ l) m h = absurd (omega (arith, h))
  drop-append (suc n) [] m h = absurd (omega (arith, h))
  drop-append (suc n) (x ∷ l) m h = drop-append n l m (omega (arith, h))

  pub drop-drop : (n k m : ℕ) (l : List A) → n + k ≡ m → drop k (drop n l) ≡ drop m l
  drop-drop zero k m l e = ap (λ i. drop i l) (omega (arith, e))
  drop-drop (suc n) zero zero [] e = refl
  drop-drop (suc n) zero (suc m) [] e = refl
  drop-drop (suc n) (suc k) zero [] e = refl
  drop-drop (suc n) (suc k) (suc m) [] e = refl
  drop-drop (suc n) k zero (x ∷ l) e = absurd (omega (arith, e))
  drop-drop (suc n) k (suc m) (x ∷ l) e = drop-drop n k m l (omega (arith, e))

pub All-take {ℓ κ} :
    {A : Type ℓ} (Holds : A → Type κ) (n : ℕ) (l : List A) → All Holds l → All Holds (take n l)
All-take Holds zero l h = tt
All-take Holds (suc n) [] h = tt
All-take Holds (suc n) (x ∷ l) h = (h.0, All-take Holds n l h.1)

pub All-drop {ℓ κ} :
    {A : Type ℓ} (Holds : A → Type κ) (n : ℕ) (l : List A) → All Holds l → All Holds (drop n l)
All-drop Holds zero l h = h
All-drop Holds (suc n) [] h = tt
All-drop Holds (suc n) (x ∷ l) h = All-drop Holds n l h.1
