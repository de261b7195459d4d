-- ===== src/Base/Trim.antt =====
-- `str::trim`, on UTF-8 bytes.
use Prim.Native.Nat.{ℕ, zero, suc}
use mathlib.Core.Path.{◌≡◌, refl}
use mathlib.Core.List.{List, [], ◌∷◌, ◌++◌}
use atomr.Base.Tests.{if◌then◌else◌}
use atomr.Base.Lists.{length}
use atomr.Base.Slices.{take}
use atomr.Base.Bytes.{Text, text_beq}

-- The characters with the property White_Space, in UTF-8.
abbrev whitespace : List Text
whitespace =
    (0x09 ∷ [])
    ∷ (0x0a ∷ [])
    ∷ (0x0b ∷ [])
    ∷ (0x0c ∷ [])
    ∷ (0x0d ∷ [])
    ∷ (0x20 ∷ [])
    ∷ (0xc2 ∷ 0x85 ∷ [])
    ∷ (0xc2 ∷ 0xa0 ∷ [])
    ∷ (0xe1 ∷ 0x9a ∷ 0x80 ∷ [])
    ∷ (0xe2 ∷ 0x80 ∷ 0x80 ∷ [])
    ∷ (0xe2 ∷ 0x80 ∷ 0x81 ∷ [])
    ∷ (0xe2 ∷ 0x80 ∷ 0x82 ∷ [])
    ∷ (0xe2 ∷ 0x80 ∷ 0x83 ∷ [])
    ∷ (0xe2 ∷ 0x80 ∷ 0x84 ∷ [])
    ∷ (0xe2 ∷ 0x80 ∷ 0x85 ∷ [])
    ∷ (0xe2 ∷ 0x80 ∷ 0x86 ∷ [])
    ∷ (0xe2 ∷ 0x80 ∷ 0x87 ∷ [])
    ∷ (0xe2 ∷ 0x80 ∷ 0x88 ∷ [])
    ∷ (0xe2 ∷ 0x80 ∷ 0x89 ∷ [])
    ∷ (0xe2 ∷ 0x80 ∷ 0x8a ∷ [])
    ∷ (0xe2 ∷ 0x80 ∷ 0xa8 ∷ [])
    ∷ (0xe2 ∷ 0x80 ∷ 0xa9 ∷ [])
    ∷ (0xe2 ∷ 0x80 ∷ 0xaf ∷ [])
    ∷ (0xe2 ∷ 0x81 ∷ 0x9f ∷ [])
    ∷ (0xe3 ∷ 0x80 ∷ 0x80 ∷ [])
    ∷ []

-- The length of the whitespace character at the head, 0 if there is none.
unfoldable pub space_at : List Text → Text → ℕ
space_at [] s = 0
space_at (w ∷ ws) s = if text_beq (take (length w) s) w then length w else space_at ws s

-- The text from its first character on that is no space; `n` counts the bytes of a space under way.
unfoldable pub trim_start : List Text → ℕ → Text → Text
trim_start ws n [] = []
trim_start ws (suc n) (c ∷ s) = trim_start ws n s
trim_start ws zero (c ∷ s) = elim (space_at ws (c ∷ s)) [ zero ↦ c ∷ s | suc n ↦ trim_start ws n s ]

unfoldable pub reverse : {A : Type 0} → List A → List A
reverse [] = []
reverse (x ∷ l) = reverse l ++ x ∷ []

abbrev reversed : List Text → List Text
reversed [] = []
reversed (w ∷ ws) = reverse w ∷ reversed ws

unfoldable pub trim : Text → Text
unfolding reverse
trim s = reverse (trim_start (reversed whitespace) 0 (reverse (trim_start whitespace 0 s)))

pub trim-nil : trim [] ≡ []
unfolding trim trim_start reverse
trim-nil = refl
