-- ===== src/Map/Keys.antt =====
-- The keys of a map, and the set that a list of keys is collected into.
use atomr.Base.{
  ◌≡◌, refl, Bool, true, false, Option, none, some, List, [], ◌∷◌, ◌++◌, map, arith, Eq, ◌==◌, ◌||◌,
}
use atomr.Map.Assoc.{lookup}
use atomr.Map.Defs.{Map, get, empty, insert}
use atomr.Map.Laws.{get-empty, get-insert}

abbrev pub is_some {ℓ} : {A : Type ℓ} → Option A → Bool
is_some none = false
is_some (some a) = true

module _ {ℓ} {K : Type ℓ} ⦃e : Eq K⦄ where
  unfoldable pub elem : K → List K → Bool
  elem k [] = false
  elem k (j ∷ l) = j == k || elem k l

  pub elem-append : (k : K) (l m : List K) → elem k (l ++ m) ≡ (elem k l || elem k m)
  unfolding elem
  elem-append k [] m = refl
  elem-append k (j ∷ l) m = ground (arith, elem-append k l m)

  -- `l.collect::<BTreeSet<_>>()`
  unfoldable pub collect : List K → Map K (Unit {0})
  collect [] = empty
  collect (k ∷ l) = insert (collect l) k tt

  pub get-collect : (l : List K) (k : K) → is_some (get (collect l) k) ≡ elem k l
  unfolding collect elem
  get-collect [] k = ground (arith, get-empty {V = Unit {0}} k)
  get-collect (j ∷ l) k = ground (arith, get-insert (collect l) j tt k, get-collect l k)

module _ {ℓ κ} {K : Type ℓ} ⦃e : Eq K⦄ {V : Type κ} where
  unfoldable pub keys : Map K V → List K
  keys m = map (λ p. p.0) m.entries

  elem-keys_entries : (l : List (K × V)) (k : K) → elem k (map (λ p. p.0) l) ≡ is_some (lookup k l)
  unfolding elem lookup
  elem-keys_entries [] k = refl
  elem-keys_entries ((j, v) ∷ l) k = ground (arith, elem-keys_entries l k)

  pub elem-keys : (m : Map K V) (k : K) → elem k (keys m) ≡ is_some (get m k)
  unfolding keys get
  elem-keys m k = elem-keys_entries m.entries k
