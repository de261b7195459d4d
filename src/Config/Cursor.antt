-- ===== src/Config/Cursor.antt =====
-- crates/atomr-config/src/hocon.rs: the cursor of `Parser`, and the parts of a document that hold no
-- others. The bytes from `pos` on stand for `src` and `pos`. What is read returns a `Run`.
pub mod Moves
pub mod Reads
use atomr.Base.{
  ℕ, zero, suc, ◌+◌, ◌-◌, ◌/◌, ◌%◌, Bool, true, false, not, ◌&&◌, ◌||◌, Option, none, some, List,
  [], ◌∷◌, ◌++◌, nat_beq, leb, if◌then◌else◌, length, take, drop, Text, codes, text_beq, is_utf8,
}

pub data HoconError : Type 0 where
  unexpected : (ch line col : ℕ) → HoconError
  unterminated : (kind : Text) (line : ℕ) → HoconError
  missing_substitution : (key : Text) → HoconError
  include : Text → HoconError
  io : (path source : Text) → HoconError
  expected : (what found : Text) (line : ℕ) → HoconError

pub record Parser : Type 0 where
  pub rest : Text
  pub line : ℕ
  pub col : ℕ

unfoldable pub new : Text → Parser
new src = record { rest = src; line = 1; col = 1 }

-- `Ok`, `Err`, and a run that its bound cut off.
pub data Run (A : Type 0) : Type 0 where
  done : A → Parser → Run A
  failed : HoconError → Run A
  out_of_fuel : Run A

-- `?`
abbrev pub and_then : {A B : Type 0} → Run A → (A → Parser → Run B) → Run B
and_then (done a p) f = f a p
and_then (failed e) f = failed e
and_then out_of_fuel f = out_of_fuel

unfoldable pub peek_at : Text → ℕ → Option ℕ
peek_at [] off = none
peek_at (c ∷ l) zero = some c
peek_at (c ∷ l) (suc off) = peek_at l off

abbrev pub is_byte : Option ℕ → ℕ → Bool
is_byte none b = false
is_byte (some c) b = nat_beq c b

-- `c as char`, in UTF-8.
unfoldable pub char : ℕ → Text
char c = if leb 0x80 c then (0xc0 + c / 64) ∷ (0x80 + c % 64) ∷ [] else c ∷ []

unfoldable pub found : Option ℕ → Text
found none = []
found (some c) = char c

unfoldable pub starts_with : Text → Text → Bool
starts_with needle l = text_beq (take (length needle) l) needle

abbrev pub is_alphanumeric : ℕ → Bool
is_alphanumeric c =
    (leb b'0' c && leb c b'9') || (leb b'a' c && leb c b'z') || (leb b'A' c && leb c b'Z')

unfoldable pub starts_with_keyword : Text → Text → Bool
starts_with_keyword kw l = starts_with kw l && elim (peek_at l (length kw)) [
  | none ↦ true
  | some c ↦ not (is_alphanumeric c) && not (nat_beq c b'_')
]

-- The line and the column after a byte.
abbrev pub line_after : ℕ → ℕ → ℕ
line_after c line = if nat_beq c b'\n' then suc line else line

abbrev pub col_after : ℕ → ℕ → ℕ
col_after c col = if nat_beq c b'\n' then 1 else suc col

unfoldable pub advance : ℕ → Parser → Parser
advance zero p = p
advance (suc n) p = elim p.rest [
  | [] ↦ p
  | c ∷ l ↦ advance n (record { rest = l; line = line_after c p.line; col = col_after c p.col })
]

-- `while let Some(c) = self.peek() { if go(c) { self.advance(1) } else { break } }`, where `go` may
-- look at the bytes after `c` too.
unfoldable pub skip_while : (ℕ → Text → Bool) → Text → ℕ → ℕ → Parser
skip_while go [] line col = record { rest = []; line = line; col = col }
skip_while go (c ∷ l) line col = elim (go c l) [
  | true ↦ skip_while go l (line_after c line) (col_after c col)
  | false ↦ record { rest = c ∷ l; line = line; col = col }
]

-- `src[start..pos]`, for `p` at `start` and `q` at `pos`.
unfoldable pub slice : Parser → Parser → Text
slice p q = take (length p.rest - length q.rest) p.rest

unfoldable pub skip_ws_inline : Parser → Parser
skip_ws_inline p = skip_while (λ c l. nat_beq c b' ' || nat_beq c b'\t') p.rest p.line p.col

-- Where `skip_ws_and_comments` stands: between comments, in a comment to the end of the line, on the
-- second byte of `/*`, in a block comment, on the second byte of `*/`.
pub data Skip : Type 0 where
  between : Skip
  in_line : Skip
  opening : Skip
  in_block : Skip
  closing : Skip

-- Where the byte `c` leads, if it is skipped.
unfoldable pub skips : Skip → ℕ → Text → Option Skip
skips between c l =
    if nat_beq c b' ' || nat_beq c b'\t' || nat_beq c b'\n' || nat_beq c b'\r'
    then some between
    else if nat_beq c b'#' || (nat_beq c b'/' && is_byte (peek_at l 0) b'/')
    then some in_line
    else if nat_beq c b'/' && is_byte (peek_at l 0) b'*'
    then some opening
    else none
skips in_line c l = if nat_beq c b'\n' then some between else some in_line
skips opening c l = some in_block
skips in_block c l =
    if nat_beq c b'*' && is_byte (peek_at l 0) b'/' then some closing else some in_block
skips closing c l = some between

unfoldable pub skip : Skip → Text → ℕ → ℕ → Parser
skip at [] line col = record { rest = []; line = line; col = col }
skip at (c ∷ l) line col = elim (skips at c l) [
  | some next ↦ skip next l (line_after c line) (col_after c col)
  | none ↦ record { rest = c ∷ l; line = line; col = col }
]

unfoldable pub skip_ws_and_comments : Parser → Parser
skip_ws_and_comments p = skip between p.rest p.line p.col
