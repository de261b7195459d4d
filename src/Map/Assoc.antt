-- ===== src/Map/Assoc.antt =====
-- Association lists with unique keys.
use atomr.Base.{◌≡◌, refl, Option, none, some, List, [], ◌∷◌, arith, Eq, ◌==◌, if◌then◌else◌}

module _ {ℓ κ} {K : Type ℓ} ⦃e : Eq K⦄ {V : Type κ} where
  unfoldable pub lookup : K → List (K × V) → Option V
  lookup key [] = none
  lookup key ((other, v) ∷ rest) = if other == key then some v else lookup key rest

  unfoldable pub set : K → V → List (K × V) → List (K × V)
  set key v [] = (key, v) ∷ []
  set key v ((other, w) ∷ rest) =
      if other == key then (key, v) ∷ rest else (other, w) ∷ set key v rest

  unfoldable pub without : K → List (K × V) → List (K × V)
  without k [] = []
  without k ((j, w) ∷ m) = if j == k then without k m else (j, w) ∷ without k m

  abbrev pub IsUnique : List (K × V) → Type κ
  IsUnique [] = Unit
  IsUnique ((k, v) ∷ m) = (lookup k m ≡ none) × IsUnique m

  pub lookup-set :
      (k j : K) (v : V) (m : List (K × V))
      → lookup j (set k v m) ≡ (if k == j then some v else lookup j m)
  unfolding lookup set
  lookup-set k j v [] = refl
  lookup-set k j v ((i, w) ∷ m) =
      ground (arith, e.test_iff k j, e.test_iff i k, e.test_iff i j, lookup-set k j v m)

  pub lookup-without :
      (k j : K) (m : List (K × V)) → lookup j (without k m) ≡ (if k == j then none else lookup j m)
  unfolding lookup without
  lookup-without k j [] = ground arith
  lookup-without k j ((i, w) ∷ m) =
      ground (arith, e.test_iff k j, e.test_iff i k, e.test_iff i j, lookup-without k j m)

  pub set-IsUnique : (k : K) (v : V) (m : List (K × V)) → IsUnique m → IsUnique (set k v m)
  unfolding lookup set
  set-IsUnique k v [] u = (refl, tt)
  set-IsUnique k v ((i, w) ∷ m) u =
      ground (arith, e.test_iff i k, e.test_iff k i, lookup-set k i v m, set-IsUnique k v m u.1)

  pub without-IsUnique : (k : K) (m : List (K × V)) → IsUnique m → IsUnique (without k m)
  unfolding lookup without
  without-IsUnique k [] u = tt
  without-IsUnique k ((i, w) ∷ m) u = ground (arith, lookup-without k i m, without-IsUnique k m u.1)
