-- ===== src/Map/Retain.antt =====
-- `HashMap::retain` by key, and the number of entries.
use atomr.Base.{ℕ, suc, ◌≤◌, ◌≡◌, Bool, none, some, List, [], ◌∷◌, arith, Eq, if◌then◌else◌, length}
use atomr.Map.Assoc.{lookup, set, without, IsUnique}
use atomr.Map.Defs.{Map, get, insert, remove}

module _ {ℓ κ} {K : Type ℓ} ⦃e : Eq K⦄ {V : Type κ} where
  unfoldable pub retained : (K → Bool) → List (K × V) → List (K × V)
  retained p [] = []
  retained p ((k, v) ∷ l) = let rest = retained p l in if p k then (k, v) ∷ rest else rest

  lookup-retained :
      (p : K → Bool) (l : List (K × V)) (k : K)
      → lookup k (retained p l) ≡ (if p k then lookup k l else none)
  unfolding retained lookup
  lookup-retained p [] k = ground arith
  lookup-retained p ((j, v) ∷ l) k = ground (arith, e.test_iff j k, lookup-retained p l k)

  pub retained-IsUnique : (p : K → Bool) (l : List (K × V)) → IsUnique l → IsUnique (retained p l)
  unfolding retained
  retained-IsUnique p [] u = tt
  retained-IsUnique p ((j, v) ∷ l) u =
      ground (arith, lookup-retained p l j, retained-IsUnique p l u.1)

  unfoldable pub retain : (K → Bool) → Map K V → Map K V
  retain p m = record {
    entries = retained p m.entries;
    unique = retained-IsUnique p m.entries m.unique;
  }

  unfoldable pub size : Map K V → ℕ
  size m = length m.entries

  pub get-retain :
      (p : K → Bool) (m : Map K V) (k : K) → get (retain p m) k ≡ (if p k then get m k else none)
  unfolding get retain
  get-retain p m k = lookup-retained p m.entries k

  length-retained : (p : K → Bool) (l : List (K × V)) → length (retained p l) ≤ length l
  unfolding retained
  length-retained p [] = omega arith
  length-retained p ((j, v) ∷ l) = ground (arith, length-retained p l)

  pub size-retain : (p : K → Bool) (m : Map K V) → size (retain p m) ≤ size m
  unfolding retain size
  size-retain p m = length-retained p m.entries

  length-set : (k : K) (v : V) (l : List (K × V)) → length (set k v l) ≤ suc (length l)
  unfolding set
  length-set k v [] = omega arith
  length-set k v ((j, w) ∷ l) = ground (arith, length-set k v l)

  pub size-insert : (m : Map K V) (k : K) (v : V) → size (insert m k v) ≤ suc (size m)
  unfolding insert size
  size-insert m k v = length-set k v m.entries

  length-without : (k : K) (l : List (K × V)) → length (without k l) ≤ length l
  unfolding without
  length-without k [] = omega arith
  length-without k ((j, w) ∷ l) = ground (arith, length-without k l)

  length-without_present :
      (k : K) (v : V) (l : List (K × V))
      → lookup k l ≡ some v
      → suc (length (without k l)) ≤ length l
  unfolding without lookup
  length-without_present k v [] h = absurd (ground arith)
  length-without_present k v ((j, w) ∷ l) h =
      ground (arith, length-without k l, length-without_present k v l)

  pub size-remove :
      (m : Map K V) (k : K) (v : V) → get m k ≡ some v → suc (size (remove m k)) ≤ size m
  unfolding get remove size
  size-remove m k v h = length-without_present k v m.entries h
