-- ===== src/Ddata/Maps/LwwMap.antt =====
-- `LWWMap` of crates/atomr-distributed-data/src/maps.rs.
use atomr.Base.{ℕ, Option, none, some, Eq, leb, if◌then◌else◌}
use atomr.Map.{Map, empty, insert, merge_with, get-empty, get-insert, get-merge_with, merged}
use atomr.Map

pub record LwwMap (K : Type 0) ⦃e : Eq K⦄ (V : Type 0) : Type 0 where
  pub entries : Map K (ℕ × V)

-- The entry that a merge leaves: the other replica's, unless its own is as late.
abbrev pub later {ℓ} : {V : Type ℓ} → Option (ℕ × V) → ℕ × V → ℕ × V
later none new = new
later (some (ts, w)) (timestamp, v) = if leb timestamp ts then (ts, w) else (timestamp, v)

abbrev pub value_of {ℓ} : {V : Type ℓ} → Option (ℕ × V) → Option V
value_of none = none
value_of (some (ts, v)) = some v

module _ {K V : Type 0} ⦃e : Eq K⦄ where
  unfoldable pub new : LwwMap K V
  new = record { entries = empty }

  unfoldable pub put : LwwMap K V → K → V → ℕ → LwwMap K V
  put m key value timestamp =
      let written : LwwMap K V = record { entries = insert m.entries key (timestamp, value) } in
      elim (Map.get m.entries key) [
        | none ↦ written
        | some (ts, v) ↦ if leb timestamp ts then m else written
      ]

  unfoldable pub get : LwwMap K V → K → Option V
  get m key = value_of (Map.get m.entries key)

  unfoldable pub merge : LwwMap K V → LwwMap K V → LwwMap K V
  merge m other = record { entries = merge_with later m.entries other.entries }
