-- ===== src/Keyed.antt =====
-- A `Vec` of records that the code searches by a key (`iter().find(|x| x.key == k)`), writes through
-- `iter_mut().find(…)`, extends with `push` and filters with `retain`.
pub mod Unique
use atomr.Base.{Bool, true, false, Option, none, some, List, [], ◌∷◌, ◌++◌, Eq, ◌==◌, if◌then◌else◌}

unfoldable pub retain {ℓ} : {A : Type ℓ} → (A → Bool) → List A → List A
retain p [] = []
retain p (x ∷ l) = let rest = retain p l in if p x then x ∷ rest else rest

module _ {ℓ κ} {A : Type ℓ} {K : Type κ} ⦃e : Eq K⦄ (key : A → K) where
  unfoldable pub find : List A → K → Option A
  find [] k = none
  find (x ∷ l) k = if key x == k then some x else find l k

  -- The first element with the key is overwritten.
  unfoldable pub replace : List A → K → A → List A
  replace [] k y = []
  replace (x ∷ l) k y = if key x == k then y ∷ l else x ∷ replace l k y

  unfoldable pub upsert : List A → A → List A
  unfolding find replace
  upsert l y = elim (find l (key y)) [ some x ↦ replace l (key y) y | none ↦ l ++ y ∷ [] ]
