-- ===== src/Config/Scalar.antt =====
-- `scalar_from_str` of hocon.rs, with `str::parse::<i64>`. The parser of `f64`,
-- which gives the pattern of the 64 bits, is a parameter.
use atomr.Base.{
  ℕ, ◌-◌, ◌^◌, true, false, Option, none, some, [], ◌∷◌, nat_beq, if◌then◌else◌, Text, codes,
  text_beq, parse_uint, parse_digits, ℤ, pos, sub_ℕ,
}
use atomr.Config.Value.{ConfigValue, null, bool, int, float, string}

-- `parse::<i64>`
unfoldable pub parse_i64 : Text → Option ℤ
parse_i64 [] = none
parse_i64 (c ∷ s) = elim (nat_beq c b'-') [
  | true ↦ elim s [
    | [] ↦ none
    | d ∷ s' ↦ elim (parse_digits (2 ^ 63) 0 (d ∷ s')) [ none ↦ none | some n ↦ some (sub_ℕ 0 n) ]
  ]
  | false ↦ elim (parse_uint (2 ^ 63 - 1) (c ∷ s)) [ none ↦ none | some n ↦ some (pos n) ]
]

unfoldable pub scalar_from_str : (parse_f64 : Text → Option ℕ) → Text → ConfigValue
scalar_from_str parse_f64 s =
    if text_beq s (codes "null")
    then null
    else if text_beq s (codes "true")
    then bool true
    else if text_beq s (codes "false")
    then bool false
    else elim (parse_i64 s) [
      | some i ↦ int i
      | none ↦ elim (parse_f64 s) [ some f ↦ float f | none ↦ string s ]
    ]
