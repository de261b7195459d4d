-- ===== src/Ddata/Maps/PnCounterMap.antt =====
-- `PNCounterMap` of crates/atomr-distributed-data/src/maps.rs.
use atomr.Base.{ℕ, ℤ, pos, Option, none, some, Eq, unwrap_or, Text}
use atomr.Map.{Map, empty, insert, merge_with, get-empty, get-insert, get-merge_with, merged}
use atomr.Map
use atomr.Ddata.PnCounter.{PnCounter}
use atomr.Ddata.PnCounter

pub record PnCounterMap (K : Type 0) ⦃e : Eq K⦄ : Type 0 where
  pub entries : Map K PnCounter

abbrev pub merge_into : Option PnCounter → PnCounter → PnCounter
merge_into slot c = PnCounter.merge (unwrap_or slot PnCounter.new) c

module _ {K : Type 0} ⦃e : Eq K⦄ where
  -- `entries.entry(key).or_default()`
  abbrev pub counter_at : PnCounterMap K → K → PnCounter
  counter_at m key = unwrap_or (Map.get m.entries key) PnCounter.new

  unfoldable pub increment : PnCounterMap K → K → Text → ℕ → PnCounterMap K
  increment m key node delta = record {
    entries = insert m.entries key (PnCounter.increment (counter_at m key) node delta);
  }

  unfoldable pub decrement : PnCounterMap K → K → Text → ℕ → PnCounterMap K
  decrement m key node delta = record {
    entries = insert m.entries key (PnCounter.decrement (counter_at m key) node delta);
  }

  unfoldable pub value : PnCounterMap K → K → ℤ
  value m key = elim (Map.get m.entries key) [ none ↦ pos 0 | some c ↦ PnCounter.value c ]

  unfoldable pub merge : PnCounterMap K → PnCounterMap K → PnCounterMap K
  merge m other = record { entries = merge_with merge_into m.entries other.entries }
