-- ===== src/Core/CircuitBreaker.antt =====
-- crates/atomr-core/src/pattern/circuit_breaker.rs. The state word is kept as the source packs it: 0 is closed,
-- 1 open, and any other half-open. A call is two steps, since others may run while it waits: `admit`
-- reads the state, `finish` records how the guarded future ended. Clock readings are nanoseconds.
pub mod Opening
use atomr.Base.{
  u64_mod, ℕ, zero, suc, ◌+◌, ◌-◌, ◌%◌, ◌^◌, Bool, true, false, not, ◌&&◌, List, [], ◌∷◌, leb, ltb,
  nat_beq, if◌then◌else◌,
}

pub data CircuitBreakerState : Type 0 where
  closed opened half_open : CircuitBreakerState

pub record CircuitBreaker : Type 0 where
  pub max_failures : ℕ
  pub reset_timeout : ℕ
  pub failures : ℕ
  pub opened_at_ns : ℕ
  pub state_word : ℕ

unfoldable pub new : ℕ → ℕ → CircuitBreaker
new max_failures reset_timeout = record {
  max_failures = max_failures;
  reset_timeout = reset_timeout;
  failures = 0;
  opened_at_ns = 0;
  state_word = 0;
}

unfoldable pub state : CircuitBreaker → ℕ → CircuitBreakerState
state b now =
    if nat_beq b.state_word 0
    then closed
    else if nat_beq b.state_word 1
    then (if ltb 0 b.opened_at_ns && leb (b.reset_timeout % u64_mod) (now - b.opened_at_ns)
        then half_open
        else opened)
    else half_open

-- How the guarded future ended, in time or not.
pub data Ending : Type 0 where
  succeeded failed timed_out : Ending

abbrev pub u32_mod : ℕ
u32_mod = 2 ^ 32

-- `fetch_add(1) + 1`
unfoldable pub record_failure : CircuitBreaker → ℕ → CircuitBreaker
record_failure b now =
    let n = (b.failures + 1) % u32_mod in
    if leb b.max_failures n
    then record b { failures = n; state_word = 1; opened_at_ns = now }
    else record b { failures = n }

-- Whether a call runs its future, or returns `Open`.
unfoldable pub admit : CircuitBreaker → Bool
admit b = not (nat_beq b.state_word 1)

unfoldable pub finish : CircuitBreaker → Ending → ℕ → CircuitBreaker
unfolding record_failure
finish b succeeded now = record b { failures = 0; state_word = 0 }
finish b failed now = record_failure b now
finish b timed_out now = record_failure b now

-- One call while no other is under way: the future runs only if the call is admitted.
unfoldable pub call : CircuitBreaker → Ending → ℕ → CircuitBreaker
unfolding admit finish
call b ending now = if admit b then finish b ending now else b
