-- ===== src/Base/Lists.antt =====
-- Lists measured by native numbers, and sums.
use Prim.Native.Nat.{ℕ, suc, ◌+◌}
use mathlib.Core.Path.{◌≡◌}
use mathlib.Core.List.{List, [], ◌∷◌, ◌++◌}
use native.Mathlib.Omega.{arith}

module _ {ℓ} {A : Type ℓ} where
  abbrev pub length : List A → ℕ
  length [] = 0
  length (x ∷ xs) = suc (length xs)

  pub length-append : (xs ys : List A) → length (xs ++ ys) ≡ length xs + length ys
  length-append [] ys = omega arith
  length-append (x ∷ xs) ys = omega (arith, length-append xs ys)

-- What holds of every element, as a tuple that the tactics read.
abbrev pub All {ℓ κ} : {T : Type ℓ} (Holds : T → Type κ) (l : List T) → Type κ
All Holds [] = Unit
All Holds (t ∷ l) = Holds t × All Holds l
