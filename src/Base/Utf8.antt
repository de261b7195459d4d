-- ===== src/Base/Utf8.antt =====
-- `std::str::from_utf8`, as a test.
use Prim.Native.Nat.{ℕ, ◌<◌}
use mathlib.Core.Path.{◌≡◌, refl}
use mathlib.Core.Bool.{Bool, true, false, ◌&&◌}
use mathlib.Core.Option.{Option, none, some}
use mathlib.Core.List.{List, [], ◌∷◌, ◌++◌}
use native.Mathlib.Omega.{arith}
use atomr.Base.Tests.{ltb, leb, nat_beq, if◌then◌else◌}
use atomr.Base.Lists.{All}
use atomr.Base.Bytes.{Text}

abbrev between : ℕ → ℕ → ℕ → Bool
between lo hi b = leb lo b && leb b hi

-- The bounds of the bytes that must follow the first byte of a character, if that can be one.
abbrev following : ℕ → Option (List (ℕ × ℕ))
following a =
    if ltb a 0x80
    then some []
    else if between 0xc2 0xdf a
    then some ((0x80, 0xbf) ∷ [])
    else if nat_beq a 0xe0
    then some ((0xa0, 0xbf) ∷ (0x80, 0xbf) ∷ [])
    else if nat_beq a 0xed
    then some ((0x80, 0x9f) ∷ (0x80, 0xbf) ∷ [])
    else if between 0xe1 0xef a
    then some ((0x80, 0xbf) ∷ (0x80, 0xbf) ∷ [])
    else if nat_beq a 0xf0
    then some ((0x90, 0xbf) ∷ (0x80, 0xbf) ∷ (0x80, 0xbf) ∷ [])
    else if nat_beq a 0xf4
    then some ((0x80, 0x8f) ∷ (0x80, 0xbf) ∷ (0x80, 0xbf) ∷ [])
    else if between 0xf1 0xf3 a
    then some ((0x80, 0xbf) ∷ (0x80, 0xbf) ∷ (0x80, 0xbf) ∷ [])
    else none

-- The bytes left of a character that has begun, then whole characters.
unfoldable pub valid_from : List (ℕ × ℕ) → Text → Bool
valid_from [] [] = true
valid_from [] (a ∷ l) = elim (following a) [ none ↦ false | some bounds ↦ valid_from bounds l ]
valid_from ((lo, hi) ∷ bounds) [] = false
valid_from ((lo, hi) ∷ bounds) (b ∷ l) = between lo hi b && valid_from bounds l

abbrev pub is_utf8 : Text → Bool
is_utf8 l = valid_from [] l

pub valid_from-append :
    (bounds : List (ℕ × ℕ)) (l m : Text)
    → valid_from bounds l ≡ true
    → is_utf8 m ≡ true
    → valid_from bounds (l ++ m) ≡ true
unfolding valid_from
valid_from-append [] [] m h k = k
valid_from-append [] (a ∷ l) m h k =
    of_first (following a) h (λ bounds. λ h'. valid_from-append bounds l m h' k)
  where
    of_first :
        (o : Option (List (ℕ × ℕ)))
        → (elim o [ none ↦ false | some bounds ↦ valid_from bounds l ]) ≡ true
        → ((bounds : List (ℕ × ℕ)) → valid_from bounds l ≡ true → valid_from bounds (l ++ m) ≡ true)
        → (elim o [ none ↦ false | some bounds ↦ valid_from bounds (l ++ m) ]) ≡ true
    of_first none h' f = h'
    of_first (some bounds) h' f = f bounds h'
valid_from-append ((lo, hi) ∷ bounds) [] m h k = absurd (ground arith)
valid_from-append ((lo, hi) ∷ bounds) (b ∷ l) m h k = ground (arith, valid_from-append bounds l m)

pub is_utf8-ascii : (l : Text) → All (λ b. b < 0x80) l → is_utf8 l ≡ true
unfolding valid_from
is_utf8-ascii [] h = refl
is_utf8-ascii (b ∷ l) h = ground (arith, is_utf8-ascii l h.1, h.0)
