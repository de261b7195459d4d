-- ===== src/Base/Decimal.antt =====
-- `u64::to_string`, and `str::parse` into an unsigned integer.
use Prim.Native.Nat.{ℕ, zero, suc, ◌+◌, ◌-◌, ◌*◌, ◌/◌, ◌%◌, ◌^◌, ◌≤◌, ◌<◌}
use mathlib.Core.Path.{◌≡◌, refl, sym, ap, subst, ◌∙◌}
use mathlib.Core.Logic.{inl, inr}
use mathlib.Core.Bool.{◌||◌}
use mathlib.Core.Option.{Option, none, some}
use mathlib.Core.List.{[], ◌∷◌, ◌++◌}
use native.Mathlib.Omega.{arith}
use atomr.Base.Tests.{ltb, ltb→lt, nat_beq, Bool-cases, if◌then◌else◌}
use atomr.Base.Lists.{All}
use atomr.Base.Bytes.{Text, decimal}

-- Enough digits for any `u64`.
abbrev pub to_string : ℕ → Text
to_string n = decimal 19 n

-- The value of the digits after `n`, unless a byte is no digit or the value passes `limit`.
unfoldable pub parse_digits : ℕ → ℕ → Text → Option ℕ
parse_digits limit n [] = some n
parse_digits limit n (c ∷ s) =
    let rest = parse_digits limit (n * 10 + (c - b'0')) s in
    if ltb c b'0' || ltb b'9' c
    then none
    else if ltb limit (n * 10 + (c - b'0'))
    then none
    else rest

-- A leading `+` is accepted, an empty number is not.
unfoldable pub parse_uint : ℕ → Text → Option ℕ
parse_uint limit [] = none
parse_uint limit (c ∷ []) = if nat_beq c b'+' then none else parse_digits limit 0 (c ∷ [])
parse_uint limit (c ∷ d ∷ s) =
    if nat_beq c b'+' then parse_digits limit 0 (d ∷ s) else parse_digits limit 0 (c ∷ d ∷ s)

abbrev pub IsDigit : ℕ → Type 0
IsDigit c = (b'0' ≤ c) × (c ≤ b'9')

All-IsDigit-append : (l m : Text) → All IsDigit l → All IsDigit m → All IsDigit (l ++ m)
All-IsDigit-append [] m h k = k
All-IsDigit-append (x ∷ l) m h k = (h.0, All-IsDigit-append l m h.1 k)

pub decimal-IsDigit : (fuel n : ℕ) → All IsDigit (decimal fuel n)
unfolding decimal
decimal-IsDigit zero n = ((omega arith, omega arith), tt)
decimal-IsDigit (suc fuel) n =
    let rest =
      All-IsDigit-append (decimal fuel (n / 10)) ((b'0' + n % 10) ∷ [])
        (decimal-IsDigit fuel (n / 10)) ((omega arith, omega arith), tt) in
    elim (Bool-cases (ltb n 10)) [
      | inl y ↦ rw y ((omega arith, omega (arith, ltb→lt n 10 y)), tt)
      | inr m ↦ rw m rest
    ]

snoc_nonempty : (l : Text) (d : ℕ) → l ++ d ∷ [] ≡ [] → ⊥
snoc_nonempty [] d e = cc e
snoc_nonempty (x ∷ l) d e = cc e

decimal_nonempty : (fuel n : ℕ) → decimal fuel n ≡ [] → ⊥
unfolding decimal
decimal_nonempty zero n e = cc e
decimal_nonempty (suc fuel) n e =
    ground (arith, snoc_nonempty (decimal fuel (n / 10)) (b'0' + n % 10))

-- A number has a digit, and only digits.
pub decimal_cons :
    (fuel n : ℕ) → (c : ℕ) × (s : Text) × (decimal fuel n ≡ c ∷ s) × (b'0' ≤ c) × (c ≤ b'9')
decimal_cons fuel n = of_list (decimal fuel n) refl
  where
    of_list :
        (l : Text)
        → decimal fuel n ≡ l
        → (c : ℕ) × (s : Text) × (decimal fuel n ≡ c ∷ s) × (b'0' ≤ c) × (c ≤ b'9')
    of_list [] e = absurd (decimal_nonempty fuel n e)
    of_list (c ∷ s) e =
        let h : All IsDigit (c ∷ s) = subst (All IsDigit) e (decimal-IsDigit fuel n) in
        (c, s, e, h.0.0, h.0.1)

parse_digits-append :
    (limit n v d : ℕ) (s : Text)
    → parse_digits limit n s ≡ some v
    → d < 10
    → v * 10 + d ≤ limit
    → parse_digits limit n (s ++ (b'0' + d) ∷ []) ≡ some (v * 10 + d)
unfolding parse_digits
parse_digits-append limit n v d [] e h l = ground arith
parse_digits-append limit n v d (c ∷ s) e h l =
    ground (arith, parse_digits-append limit (n * 10 + (c - b'0')) v d s)

parse_digits-decimal :
    (limit fuel n : ℕ)
    → n < 10 ^ suc fuel
    → n ≤ limit
    → parse_digits limit 0 (decimal fuel n) ≡ some n
unfolding decimal parse_digits
parse_digits-decimal limit zero n h l =
    parse_digits-append limit 0 0 (n % 10) [] refl (omega arith) (omega (arith, l))
    ∙ ap some (omega (arith, h))
parse_digits-decimal limit (suc fuel) n h l = elim (Bool-cases (ltb n 10)) [
  | inl y ↦
      let b = ltb→lt n 10 y in
      rw y (parse_digits-append limit 0 0 n [] refl b (omega (arith, l)) ∙ ap some (omega arith))
  | inr m ↦
      let before = parse_digits-decimal limit fuel (n / 10) (omega (arith, h)) (omega (arith, l)) in
      rw m (
        parse_digits-append limit 0 (n / 10) (n % 10) (decimal fuel (n / 10)) before (omega arith)
          (omega (arith, l))
        ∙ ap some (omega arith))
]

-- What is printed of a number that has at most `fuel + 1` digits, `parse` reads back.
pub parse_uint-decimal :
    (limit fuel n : ℕ) → n < 10 ^ suc fuel → n ≤ limit → parse_uint limit (decimal fuel n) ≡ some n
parse_uint-decimal limit fuel n h l =
    let (c, s, e, lo, hi) = decimal_cons fuel n in
    rw e (unsigned c s lo ∙ rw (sym e) (parse_digits-decimal limit fuel n h l))
  where
    unsigned :
        (c : ℕ) (s : Text) → b'0' ≤ c → parse_uint limit (c ∷ s) ≡ parse_digits limit 0 (c ∷ s)
    unsigned c [] lo = unfold parse_uint in ground arith
    unsigned c (d ∷ s) lo = unfold parse_uint in ground arith

-- What `to_string` prints of a number, `parse` reads back.
pub parse_uint-to_string :
    (limit n : ℕ) → limit < 10 ^ 20 → n ≤ limit → parse_uint limit (to_string n) ≡ some n
parse_uint-to_string limit n h l = parse_uint-decimal limit 19 n (omega (arith, h, l)) l
