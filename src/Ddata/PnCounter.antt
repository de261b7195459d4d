-- ===== src/Ddata/PnCounter.antt =====
-- The positive/negative counter of crates/atomr-distributed-data/src/counters.rs.
pub mod Laws
use atomr.Base.{ℕ, ◌+◌, ◌-◌, ◌%◌, ◌^◌, ℤ, pos, negsuc, Text, ltb, u64_mod, if◌then◌else◌}
use atomr.Ddata.GCounter.{GCounter}
use atomr.Ddata.GCounter

pub record PnCounter : Type 0 where
  pub inc : GCounter
  pub dec : GCounter

unfoldable pub new : PnCounter
new = record { inc = GCounter.new; dec = GCounter.new }

unfoldable pub increment : PnCounter → Text → ℕ → PnCounter
increment c node delta = record c { inc = GCounter.increment c.inc node delta }

unfoldable pub decrement : PnCounter → Text → ℕ → PnCounter
decrement c node delta = record c { dec = GCounter.increment c.dec node delta }

-- `n as i64` of a `u64`: its bits read in two's complement.
abbrev pub as_i64 : ℕ → ℤ
as_i64 n = if ltb n (2 ^ 63) then pos n else negsuc (u64_mod - n - 1)

-- `inc as i64 - dec as i64`: the subtraction wraps, so it is that of the bits.
unfoldable pub value : PnCounter → ℤ
value c = as_i64 ((GCounter.value c.inc + u64_mod - GCounter.value c.dec) % u64_mod)

unfoldable pub merge : PnCounter → PnCounter → PnCounter
merge c other = record {
  inc = GCounter.merge c.inc other.inc;
  dec = GCounter.merge c.dec other.dec;
}
