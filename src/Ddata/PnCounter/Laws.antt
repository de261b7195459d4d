-- ===== src/Ddata/PnCounter/Laws.antt =====
-- The positive/negative counter as a semilattice, and its value as a difference.
use atomr.Base.{◌<◌, ◌^◌, ◌≡◌, sub_ℕ, arith}
use atomr.Ddata.CrdtMerge.{IsSemilattice}
use atomr.Ddata.GCounter
use atomr.Ddata.GCounter.Laws
use atomr.Ddata.GCounter.Laws.{merge-IsSemilattice}
use atomr.Ddata.PnCounter.{PnCounter, merge, value}

abbrev pub Same : PnCounter → PnCounter → Type 0
Same a b = Laws.Same a.inc b.inc × Laws.Same a.dec b.dec

-- The merge of positive/negative counters is commutative, associative and idempotent on the
-- increments and decrements of every node.
pub pn_merge-IsSemilattice : IsSemilattice Same merge
unfolding merge
pn_merge-IsSemilattice = record {
  idem = λ a. (merge-IsSemilattice.idem a.inc, merge-IsSemilattice.idem a.dec);
  comm = λ a b. (merge-IsSemilattice.comm a.inc b.inc, merge-IsSemilattice.comm a.dec b.dec);
  assoc = λ a b c.
      (merge-IsSemilattice.assoc a.inc b.inc c.inc, merge-IsSemilattice.assoc a.dec b.dec c.dec);
}

-- While the sums of the increments and of the decrements fit an `i64`, the value is their
-- difference, negative ones included.
pub value-sub :
    (c : PnCounter)
    → GCounter.value c.inc < 2 ^ 63
    → GCounter.value c.dec < 2 ^ 63
    → value c ≡ sub_ℕ (GCounter.value c.inc) (GCounter.value c.dec)
unfolding value
value-sub c p q = ground arith
