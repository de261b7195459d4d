-- ===== src/Core/Tests.antt =====
-- The theorems on the circuit breaker at concrete calls.
use atomr.Base.{◌≡◌, refl, false, ◌∷◌, [], arith}
use atomr.Core.CircuitBreaker.{CircuitBreaker, half_open, state, succeeded, admit}
use atomr.Core.CircuitBreaker.Opening.{calls, open_forever}

-- Open since 100, with a reset timeout of 50.
abbrev broken : CircuitBreaker
broken = record {
  max_failures = 2;
  reset_timeout = 50;
  failures = 2;
  opened_at_ns = 100;
  state_word = 1;
}

open_forever_example :
    (admit (calls broken ((succeeded, 160) ∷ (succeeded, 170) ∷ [])) ≡ false)
    × (state (calls broken ((succeeded, 160) ∷ (succeeded, 170) ∷ [])) 180 ≡ half_open)
open_forever_example =
    open_forever broken ((succeeded, 160) ∷ (succeeded, 170) ∷ []) 180 refl (omega arith)
      (omega arith)
