-- ===== src/Base/Words.antt =====
-- Machine words as their little-endian bytes: `to_le_bytes` and `from_le_bytes`.
use Prim.Native.Nat.{ℕ, zero, suc, ◌+◌, ◌*◌, ◌/◌, ◌%◌, ◌^◌, ◌<◌}
use mathlib.Core.Path.{◌≡◌, refl}
use mathlib.Core.List.{List, [], ◌∷◌}
use native.Mathlib.Omega.{arith}
use atomr.Base.Lists.{length, All}

abbrev pub u32_mod : ℕ
u32_mod = 2 ^ 32

abbrev pub IsByte : ℕ → Type 0
IsByte b = b < 256

-- The lowest `w` bytes, the least significant first.
unfoldable pub to_le_bytes : ℕ → ℕ → List ℕ
to_le_bytes zero n = []
to_le_bytes (suc w) n = n % 256 ∷ to_le_bytes w (n / 256)

unfoldable pub from_le_bytes : List ℕ → ℕ
from_le_bytes [] = 0
from_le_bytes (b ∷ l) = b + 256 * from_le_bytes l

pub length-to_le_bytes : (w n : ℕ) → length (to_le_bytes w n) ≡ w
unfolding to_le_bytes
length-to_le_bytes zero n = refl
length-to_le_bytes (suc w) n = omega (arith, length-to_le_bytes w (n / 256))

pub from_le_bytes-to_le_bytes : (w n : ℕ) → n < 256 ^ w → from_le_bytes (to_le_bytes w n) ≡ n
unfolding to_le_bytes from_le_bytes
from_le_bytes-to_le_bytes zero n h = omega (arith, h)
from_le_bytes-to_le_bytes (suc w) n h =
    omega (arith, from_le_bytes-to_le_bytes w (n / 256) (omega (arith, h)))

pub from_le_bytes-lt :
    (w : ℕ) (l : List ℕ) → length l ≡ w → All IsByte l → from_le_bytes l < 256 ^ w
unfolding from_le_bytes
from_le_bytes-lt zero [] e h = omega arith
from_le_bytes-lt (suc w) [] e h = absurd (omega (arith, e))
from_le_bytes-lt zero (b ∷ l) e h = absurd (omega (arith, e))
from_le_bytes-lt (suc w) (b ∷ l) e h =
    omega (arith, h.0, from_le_bytes-lt w l (omega (arith, e)) h.1)

pub to_le_bytes-from_le_bytes :
    (w : ℕ) (l : List ℕ) → length l ≡ w → All IsByte l → to_le_bytes w (from_le_bytes l) ≡ l
unfolding to_le_bytes from_le_bytes
to_le_bytes-from_le_bytes zero [] e h = refl
to_le_bytes-from_le_bytes (suc w) [] e h = absurd (omega (arith, e))
to_le_bytes-from_le_bytes zero (b ∷ l) e h = absurd (omega (arith, e))
to_le_bytes-from_le_bytes (suc w) (b ∷ l) e h =
    let low : ((b + 256 * from_le_bytes l) % 256 ≡ b) = omega (arith, h.0) in
    let high : ((b + 256 * from_le_bytes l) / 256 ≡ from_le_bytes l) = omega (arith, h.0) in
    rw (low, high, to_le_bytes-from_le_bytes w l (omega (arith, e)) h.1) refl

pub to_le_bytes-IsByte : (w n : ℕ) → All IsByte (to_le_bytes w n)
unfolding to_le_bytes
to_le_bytes-IsByte zero n = tt
to_le_bytes-IsByte (suc w) n = (omega arith, to_le_bytes-IsByte w (n / 256))
