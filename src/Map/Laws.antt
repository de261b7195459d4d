-- ===== src/Map/Laws.antt =====
-- What `get` sees of each operation.
use atomr.Base.{◌≢◌, ◌≡◌, refl, Option, none, some, List, [], ◌∷◌, arith, Eq, ◌==◌, if◌then◌else◌}
use atomr.Map.Assoc.{lookup, lookup-set, lookup-without, IsUnique}
use atomr.Map.Defs.{Map, get, empty, insert, remove, merge_entries, merge_with}

module _ {ℓ κ} {K : Type ℓ} ⦃e : Eq K⦄ {V : Type κ} where
  pub get-empty : (k : K) → get (empty {V = V}) k ≡ none
  unfolding get empty lookup
  get-empty k = refl

  pub get-insert :
      (m : Map K V) (k : K) (v : V) (j : K)
      → get (insert m k v) j ≡ (if k == j then some v else get m j)
  unfolding get insert
  get-insert m k v j = lookup-set k j v m.entries

  pub get-remove : (m : Map K V) (k j : K) → get (remove m k) j ≡ (if k == j then none else get m j)
  unfolding get remove
  get-remove m k j = lookup-without k j m.entries

  -- A write at a key that does not hold `w` leaves the keys that hold it alone.
  pub get-insert_ne :
      (m : Map K V) (k j : K) (v w : V)
      → get m j ≡ some w
      → get m k ≢ some w
      → get (insert m k v) j ≡ some w
  get-insert_ne m k j v w h n = ground (arith, get-insert m k v j, e.test_iff k j)

  pub get-insert_same :
      (m : Map K V) (k j : K) (w : V) → get m j ≡ some w → get (insert m k w) j ≡ some w
  get-insert_same m k j w h = ground (arith, get-insert m k w j)

pub ruleset map_laws = (get-empty, get-insert, get-remove)

-- What the merge leaves at a key, from what the two maps hold there.
abbrev pub merged {κ μ} :
    {V : Type κ} {W : Type μ} → (Option V → W → V) → Option V → Option W → Option V
merged f a none = a
merged f a (some w) = some (f a w)

module _ {ℓ κ μ} {K : Type ℓ} ⦃e : Eq K⦄ {V : Type κ} {W : Type μ} (f : Option V → W → V) where
  pub get-merge_entries :
      (m : Map K V) (l : List (K × W)) (j : K)
      → IsUnique l
      → get (merge_entries f m l) j ≡ merged f (get m j) (lookup j l)
  unfolding merge_entries lookup
  get-merge_entries m [] j u = refl
  get-merge_entries m ((k, w) ∷ l) j u = ground (
    arith,
    e.test_iff k j,
    get-insert m k (f (get m k) w) j,
    get-merge_entries (insert m k (f (get m k) w)) l j u.1,
  )

  pub get-merge_with :
      (m : Map K V) (n : Map K W) (j : K) → get (merge_with f m n) j ≡ merged f (get m j) (get n j)
  unfolding merge_with get
  get-merge_with m n j = get-merge_entries m n.entries j n.unique
