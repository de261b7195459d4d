-- ===== src/Ddata/Maps/OrMap.antt =====
-- `ORMap` of crates/atomr-distributed-data/src/maps.rs. How the values merge is a parameter of the operations that
-- merge them. The counter is a `u64` and wraps.
use atomr.Base.{ℕ, ◌+◌, ◌%◌, Option, none, some, Eq, unwrap_or, max, leb, if◌then◌else◌, u64_mod}
use atomr.Map.{Map, empty, insert, merge_with, get-empty, get-insert, get-merge_with, merged}
use atomr.Map

pub record OrMap (K : Type 0) ⦃e : Eq K⦄ (V : Type 0) : Type 0 where
  pub entries : Map K (ℕ × V)
  pub tombstones : Map K ℕ
  pub counter : ℕ

-- The value of an entry, unless a tombstone at or above its tag hides it.
abbrev pub visible {ℓ} : {V : Type ℓ} → Option (ℕ × V) → Option ℕ → Option V
visible none t = none
visible (some (tag, v)) none = some v
visible (some (tag, v)) (some tomb) = if leb tag tomb then none else some v

-- What `update` writes: the entry's value merged, or the value itself where there is no entry.
abbrev pub combined {ℓ} : {V : Type ℓ} → (V → V → V) → Option (ℕ × V) → V → V
combined f none v = v
combined f (some (tag, w)) v = f w v

-- What `merge` writes for an entry of the other replica.
abbrev pub merge_entry {ℓ} : {V : Type ℓ} → (V → V → V) → Option (ℕ × V) → ℕ × V → ℕ × V
merge_entry f none (tag, v) = (tag, v)
merge_entry f (some (mine, w)) (tag, v) = (max mine tag, f w v)

abbrev pub raise : Option ℕ → ℕ → ℕ
raise slot t = max (unwrap_or slot 0) t

module _ {K V : Type 0} ⦃e : Eq K⦄ where
  unfoldable pub new : OrMap K V
  new = record { entries = empty; tombstones = empty; counter = 0 }

  unfoldable pub put : OrMap K V → K → V → OrMap K V
  put m key value =
      let counter = (m.counter + 1) % u64_mod in
      record m { entries = insert m.entries key (counter, value); counter = counter }

  unfoldable pub update : (V → V → V) → OrMap K V → K → V → OrMap K V
  update f m key value =
      let counter = (m.counter + 1) % u64_mod in
      record m {
        entries = insert m.entries key (counter, combined f (Map.get m.entries key) value);
        counter = counter;
      }

  unfoldable pub remove : OrMap K V → K → OrMap K V
  remove m key = elim (Map.get m.entries key) [
    | none ↦ m
    | some (tag, v) ↦ record m { tombstones = insert m.tombstones key tag }
  ]

  unfoldable pub get : OrMap K V → K → Option V
  get m key = visible (Map.get m.entries key) (Map.get m.tombstones key)

  unfoldable pub merge : (V → V → V) → OrMap K V → OrMap K V → OrMap K V
  merge f m other = record {
    entries = merge_with (merge_entry f) m.entries other.entries;
    tombstones = merge_with raise m.tombstones other.tombstones;
    counter = max m.counter other.counter;
  }
