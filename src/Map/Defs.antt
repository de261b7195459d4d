-- ===== src/Map/Defs.antt =====
use atomr.Base.{◌≡◌, Option, List, [], ◌∷◌, Eq}
use atomr.Map.Assoc.{lookup, set, without, IsUnique, set-IsUnique, without-IsUnique}

pub record Map {ℓ κ} (K : Type ℓ) ⦃e : Eq K⦄ (V : Type κ) : Type (ℓ ⊔ κ) where
  pub entries : List (K × V)
  pub unique : IsUnique entries

module _ {ℓ κ} {K : Type ℓ} ⦃e : Eq K⦄ {V : Type κ} where
  unfoldable pub get : Map K V → K → Option V
  get m k = lookup k m.entries

  unfoldable pub empty : Map K V
  empty = record { entries = []; unique = tt }

  unfoldable pub insert : Map K V → K → V → Map K V
  insert m k v = record {
    entries = set k v m.entries;
    unique = set-IsUnique k v m.entries m.unique;
  }

  unfoldable pub remove : Map K V → K → Map K V
  remove m k = record {
    entries = without k m.entries;
    unique = without-IsUnique k m.entries m.unique;
  }

  -- Two maps that hold the same value, or none, at each key.
  abbrev pub Same : Map K V → Map K V → Type (ℓ ⊔ κ)
  Same m n = (k : K) → get m k ≡ get n k

module _ {ℓ κ μ} {K : Type ℓ} ⦃e : Eq K⦄ {V : Type κ} {W : Type μ} (f : Option V → W → V) where
  unfoldable pub merge_entries : Map K V → List (K × W) → Map K V
  merge_entries m [] = m
  merge_entries m ((k, w) ∷ l) = merge_entries (insert m k (f (get m k) w)) l

  -- `for (k, w) in &other { self[k] = f(self.get(k), w) }`
  unfoldable pub merge_with : Map K V → Map K W → Map K V
  unfolding merge_entries
  merge_with m n = merge_entries m n.entries
