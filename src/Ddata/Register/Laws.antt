-- ===== src/Ddata/Register/Laws.antt =====
-- Last-writer-wins: the later write stands, the greater node on a tie.
use atomr.Base.{◌≡◌, arith, text_leb_total, text_leb_trans, text_leb_antisymm}
use atomr.Ddata.CrdtMerge.{IsSemilattice}
use atomr.Ddata.Register.{LwwRegister, merge, Flag, merge_flag}

module _ {T : Type 0} where
  -- A write by one node at one time has one value.
  abbrev pub Agree : LwwRegister T → LwwRegister T → Type 0
  Agree a b = a.timestamp ≡ b.timestamp → a.node ≡ b.node → a.value ≡ b.value

  -- Merging registers is commutative if a node never writes two values at one time.
  pub merge_comm : (a b : LwwRegister T) → Agree a b → merge a b ≡ merge b a
  unfolding merge
  merge_comm a b h = ground (
    arith,
    text_leb_total a.node b.node,
    text_leb_total b.node a.node,
    text_leb_antisymm a.node b.node,
  )

  -- Merging registers is associative: of three writes the latest stands, however they are merged.
  pub merge_assoc : (a b c : LwwRegister T) → merge (merge a b) c ≡ merge a (merge b c)
  unfolding merge
  merge_assoc a b c = ground (
    arith,
    text_leb_total a.node b.node,
    text_leb_total b.node c.node,
    text_leb_total a.node c.node,
    text_leb_total b.node a.node,
    text_leb_total c.node b.node,
    text_leb_total c.node a.node,
    text_leb_trans a.node b.node c.node,
    text_leb_trans c.node b.node a.node,
    text_leb_trans b.node a.node c.node,
    text_leb_trans a.node c.node b.node,
    text_leb_trans c.node a.node b.node,
    text_leb_trans b.node c.node a.node,
  )

pub flag-IsSemilattice : IsSemilattice (◌≡◌ {A = Flag}) merge_flag
unfolding merge_flag
flag-IsSemilattice = record {
  idem = λ a. ground arith;
  comm = λ a b. ground arith;
  assoc = λ a b c. ground arith;
}
