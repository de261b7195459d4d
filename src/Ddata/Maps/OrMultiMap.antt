-- ===== src/Ddata/Maps/OrMultiMap.antt =====
-- `ORMultiMap` of crates/atomr-distributed-data/src/maps.rs.
use atomr.Base.{ℕ, Bool, false, Option, none, some, Eq, unwrap_or, length}
use atomr.Map.{Map, empty, insert, merge_with, get-empty, get-insert, get-merge_with, merged}
use atomr.Map
use atomr.Ddata.Sets.{OrSet}
use atomr.Ddata.Sets

pub record OrMultiMap (K : Type 0) ⦃e : Eq K⦄ (V : Type 0) ⦃f : Eq V⦄ : Type 0 where
  pub entries : Map K (OrSet V)

abbrev pub merge_into : {V : Type 0} ⦃f : Eq V⦄ → Option (OrSet V) → OrSet V → OrSet V
merge_into slot s = Sets.merge (unwrap_or slot Sets.new) s

module _ {K V : Type 0} ⦃e : Eq K⦄ ⦃f : Eq V⦄ where
  unfoldable pub add : OrMultiMap K V → K → V → OrMultiMap K V
  add m key value = record {
    entries = insert m.entries key (Sets.add (unwrap_or (Map.get m.entries key) Sets.new) value);
  }

  unfoldable pub remove : OrMultiMap K V → K → V → OrMultiMap K V
  remove m key value = elim (Map.get m.entries key) [
    | none ↦ m
    | some set ↦ record { entries = insert m.entries key (Sets.remove set value) }
  ]

  unfoldable pub contains : OrMultiMap K V → K → V → Bool
  contains m key value = elim (Map.get m.entries key) [
    | none ↦ false
    | some set ↦ Sets.contains set value
  ]

  unfoldable pub key_count : OrMultiMap K V → ℕ
  key_count m = length m.entries.entries

  unfoldable pub merge : OrMultiMap K V → OrMultiMap K V → OrMultiMap K V
  merge m other = record { entries = merge_with merge_into m.entries other.entries }
