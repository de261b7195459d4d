-- ===== src/Fix/SeqStore.antt =====
-- crates/atomr-fix/src/seq_store.rs: the two counters of a session. They are `u64`.
use atomr.Base.{ℕ, ◌+◌, ◌-◌, ◌%◌, max, min, u64_mod}

pub record InMemorySeqStore : Type 0 where
  pub out : ℕ
  pub in_expected : ℕ

unfoldable pub new : InMemorySeqStore
new = record { out = 1; in_expected = 1 }

unfoldable pub with_counters : ℕ → ℕ → InMemorySeqStore
with_counters next_out next_in = record { out = max next_out 1; in_expected = max next_in 1 }

-- `fetch_add` wraps.
unfoldable pub next_out : InMemorySeqStore → InMemorySeqStore × ℕ
next_out s = (record s { out = (s.out + 1) % u64_mod }, s.out)

unfoldable pub peek_out : InMemorySeqStore → ℕ
peek_out s = s.out

unfoldable pub saturating_suc : ℕ → ℕ
saturating_suc n = min (n + 1) (u64_mod - 1)

unfoldable pub observed_in : InMemorySeqStore → ℕ → InMemorySeqStore
observed_in s n = record s { in_expected = max s.in_expected (saturating_suc n) }

unfoldable pub current_in : InMemorySeqStore → ℕ
current_in s = s.in_expected

unfoldable pub reset : InMemorySeqStore → InMemorySeqStore
reset s = record { out = 1; in_expected = 1 }
