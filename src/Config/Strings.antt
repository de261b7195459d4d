-- ===== src/Config/Strings.antt =====
-- `parse_string`, `parse_key` and `parse_substitution` of hocon.rs.
pub mod Reads
pub mod Quotes
use atomr.Base.{
  ℕ, zero, suc, ◌+◌, Bool, true, false, not, ◌&&◌, ◌||◌, Option, none, some, List, [], ◌∷◌, ◌++◌,
  nat_beq, leb, if◌then◌else◌, length, Text, codes, is_utf8, trim,
}
use atomr.Config.Value.{ConfigValue, string}
use atomr.Config.Cursor.{
  HoconError, unexpected, unterminated, expected, Parser, Run, done, failed, out_of_fuel, and_then,
  peek_at, is_byte, char, found, starts_with, is_alphanumeric, line_after, col_after, advance,
  skip_while, slice, skip_ws_inline,
}

-- What the byte after a backslash stands for.
unfoldable pub unescape : ℕ → Text
unescape c =
    if nat_beq c b'n'
    then b'\n' ∷ []
    else if nat_beq c b't'
    then b'\t' ∷ []
    else if nat_beq c b'r'
    then b'\r' ∷ []
    else char c

-- The loop behind the opening quote; `escaped` after a backslash.
unfoldable pub quoted : Bool → Text → (line col : ℕ) → Text → Run Text
quoted false [] line col out = failed (unterminated (codes "string") line)
quoted true [] line col out = failed (unterminated (codes "string-escape") line)
quoted true (c ∷ l) line col out =
    quoted false l (line_after c line) (col_after c col) (out ++ unescape c)
quoted false (c ∷ l) line col out = elim (nat_beq c b'\n') [
  | true ↦ failed (unterminated (codes "string") line)
  | false ↦ elim (nat_beq c b'"') [
    | true ↦ done out record { rest = l; line = line; col = suc col }
    | false ↦ elim (nat_beq c b'\\') [
      | true ↦ quoted true l line (suc col) out
      | false ↦ quoted false l line (suc col) (out ++ char c)
    ]
  ]
]

abbrev pub triple_quote : Text
triple_quote = b'"' ∷ b'"' ∷ b'"' ∷ []

-- From behind the three quotes.
unfoldable pub triple_quoted : Parser → Run Text
triple_quoted p =
    let q =
      skip_while (λ c l. leb 2 (length l) && not (starts_with triple_quote (c ∷ l))) p.rest p.line
        p.col in
    if leb (length q.rest) 2 || not (is_utf8 (slice p q))
    then failed (unterminated (codes "string") q.line)
    else done (slice p q) (advance 3 q)

unfoldable pub parse_string : Parser → Run Text
parse_string p =
    if starts_with triple_quote p.rest
    then triple_quoted (advance 3 p)
    else if is_byte (peek_at p.rest 0) b'"'
    then (let q = advance 1 p in quoted false q.rest q.line q.col [])
    else failed (expected (b'"' ∷ []) (found (peek_at p.rest 0)) p.line)

-- A part of a key that is not quoted.
unfoldable pub bare_part : Parser → Run Text
bare_part p =
    let q =
      skip_while (λ c l. is_alphanumeric c || nat_beq c b'_' || nat_beq c b'-') p.rest p.line
        p.col in
    if nat_beq (length p.rest) (length q.rest)
    then failed (expected (codes "key") (found (peek_at q.rest 0)) q.line)
    else if is_utf8 (slice p q)
    then done (slice p q) q
    else failed (unexpected 0 q.line q.col)

unfoldable pub key_part : Parser → Run Text
key_part p = if is_byte (peek_at p.rest 0) b'"' then parse_string p else bare_part p

-- The loop of `parse_key`, on the number of rounds left.
unfoldable pub key_parts : ℕ → Parser → List Text → Run (List Text)
key_parts zero p parts = out_of_fuel
key_parts (suc n) p parts = and_then (key_part (skip_ws_inline p)) (λ part q.
    elim (is_byte (peek_at q.rest 0) b'.') [
      | true ↦ key_parts n (advance 1 q) (parts ++ part ∷ [])
      | false ↦ done (parts ++ part ∷ []) q
    ])

unfoldable pub parse_key : Parser → Run (List Text)
parse_key p = key_parts (suc (length p.rest)) p []

-- From the path on, with the marker of the placeholder.
unfoldable pub path_of : (marker : Text) → Parser → Run ConfigValue
path_of marker start =
    let q = skip_while (λ c l. not (nat_beq c b'}')) start.rest start.line start.col in
    if not (is_byte (peek_at q.rest 0) b'}') || not (is_utf8 (slice start q))
    then failed (unterminated (codes "substitution") q.line)
    else done (string (marker ++ trim (slice start q))) (advance 1 q)

-- From the `$` on.
unfoldable pub parse_substitution : Parser → Run ConfigValue
parse_substitution p0 =
    let p = advance 2 p0 in
    if is_byte (peek_at p.rest 0) b'?'
    then path_of (codes "__atomr_sub_opt::") (advance 1 p)
    else path_of (codes "__atomr_sub::") p
