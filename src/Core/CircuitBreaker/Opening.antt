-- ===== src/Core/CircuitBreaker/Opening.antt =====
-- When a circuit breaker opens, and what an open one admits.
use atomr.Base.{
  ℕ, zero, suc, ◌+◌, ◌≤◌, ◌<◌, ◌≡◌, refl, true, false, List, [], ◌∷◌, arith, ltb, ap, ◌∙◌,
}
use atomr.Core.CircuitBreaker.{
  CircuitBreaker, half_open, state, Ending, failed, u32_mod, record_failure, admit, finish, call,
}

-- Calls one after the other, each with its ending and the clock's reading.
unfoldable pub calls : CircuitBreaker → List (Ending × ℕ) → CircuitBreaker
calls b [] = b
calls b ((ending, now) ∷ l) = calls (call b ending now) l

-- The failures of `n` calls that fail at the readings of a clock.
unfoldable pub fail : CircuitBreaker → (ℕ → ℕ) → ℕ → CircuitBreaker
fail b clock zero = b
fail b clock (suc n) = call (fail b clock n) failed (clock n)

call_open :
    (b : CircuitBreaker) (ending : Ending) (now : ℕ) → b.state_word ≡ 1 → call b ending now ≡ b
unfolding call admit
call_open b ending now h = ground arith

calls_open : (b : CircuitBreaker) (l : List (Ending × ℕ)) → b.state_word ≡ 1 → calls b l ≡ b
unfolding calls
calls_open b [] h = refl
calls_open b ((ending, now) ∷ l) h =
    ap (λ c. calls c l) (call_open b ending now h) ∙ calls_open b l h

-- A breaker that is open, with no call under way, admits no call ever again, whatever time passes: its
-- `state` is half-open once the reset timeout is over, but `call` does not ask for it.
pub open_forever :
    (b : CircuitBreaker) (l : List (Ending × ℕ)) (now : ℕ)
    → b.state_word ≡ 1
    → 0 < b.opened_at_ns
    → b.opened_at_ns + b.reset_timeout ≤ now
    → (admit (calls b l) ≡ false) × (state (calls b l) now ≡ half_open)
unfolding admit state
open_forever b l now h p q = rw (calls_open b l h) (ground arith)

failing :
    (b : CircuitBreaker) (clock : ℕ → ℕ) (n : ℕ)
    → b.state_word ≡ 0
    → b.failures ≡ 0
    → n < b.max_failures
    → b.max_failures < u32_mod
    → ((fail b clock n).state_word ≡ 0)
      × ((fail b clock n).failures ≡ n)
      × ((fail b clock n).max_failures ≡ b.max_failures)
unfolding fail call admit finish record_failure
failing b clock zero s f h m = (s, f, refl)
failing b clock (suc n) s f h m = let ih = failing b clock n s f (omega arith) m in ground arith

-- A closed breaker with no failure admits calls until `max_failures` calls in a row have failed, and
-- is open from then, at the clock's reading of the last.
pub opens_after :
    (b : CircuitBreaker) (clock : ℕ → ℕ) (n : ℕ)
    → b.state_word ≡ 0
    → b.failures ≡ 0
    → n < b.max_failures
    → b.max_failures < u32_mod
    → (admit (fail b clock n) ≡ true) × (admit (fail b clock (suc n)) ≡ ltb (suc n) b.max_failures)
unfolding fail call admit finish record_failure
opens_after b clock n s f h m = let ih = failing b clock n s f h m in ground arith
