-- ===== src/Config/Strings/Quotes.antt =====
-- A text between quotes, as `parse_string` reads it back.
use mathlib.Core.List.{append_assoc, append-nil}
use atomr.Base.{
  ℕ, suc, ◌+◌, ◌≡◌, refl, ◌↔◌, sym, ap, ◌∙◌, inl, inr, false, some, [], ◌∷◌, ◌++◌, arith, nat_beq,
  nat_beq_iff, leb, if◌then◌else◌, Bool-cases, length, Text, text_beq,
}
use atomr.Config.Cursor.{Run, done, peek_at, char, starts_with, advance}
use atomr.Config.Strings.{unescape, quoted, triple_quote, parse_string}

-- A quote, a backslash and a line end are escaped, any other byte stands for itself.
unfoldable pub escaped : Text → Text
escaped [] = []
escaped (c ∷ s) =
    if nat_beq c b'\n'
    then b'\\' ∷ b'n' ∷ escaped s
    else if nat_beq c b'"'
    then b'\\' ∷ b'"' ∷ escaped s
    else if nat_beq c b'\\'
    then b'\\' ∷ b'\\' ∷ escaped s
    else c ∷ escaped s

-- The characters whose codes the bytes are.
unfoldable pub chars : Text → Text
chars [] = []
chars (c ∷ s) = char c ++ chars s

-- How many bytes are not ASCII.
unfoldable pub high : Text → ℕ
high [] = 0
high (c ∷ s) = if leb 0x80 c then suc (high s) else high s

pub chars-length : (s : Text) → length (chars s) ≡ length s + high s
unfolding chars char high
chars-length [] = refl
chars-length (c ∷ s) = elim (Bool-cases (leb 0x80 c)) [
  | inl e ↦ rw (e, chars, char, high) (omega (arith, chars-length s))
  | inr e ↦ rw (e, chars, char, high) (omega (arith, chars-length s))
]

chars-ascii : (s : Text) → high s ≡ 0 → chars s ≡ s
unfolding chars char high
chars-ascii [] h = refl
chars-ascii (c ∷ s) h = elim (Bool-cases (leb 0x80 c)) [
  | inl e ↦ absurd (ground arith)
  | inr e ↦ rw (e, chars, char) (ap (λ t. c ∷ t) (chars-ascii s (ground arith)))
]

same_length : (s : Text) → chars s ≡ s → high s ≡ 0
same_length s e =
    let size : length (chars s) ≡ length s = ap (λ (t : Text). length t) e in
    omega (arith, chars-length s)

settle :
    (t u rest : Text) (line a b : ℕ)
    → t ≡ u
    → a ≡ b
    → ◌≡◌ {A = Run Text}
        (done t (record { rest = rest; line = line; col = a }))
        (done u (record { rest = rest; line = line; col = b }))
settle t u rest line a b e f = rw (e, f) refl

quoted-escaped :
    (s rest out : Text) (line col : ℕ)
    → quoted false (escaped s ++ b'"' ∷ rest) line col out
      ≡ done
          (out ++ chars s)
          (record { rest = rest; line = line; col = suc (col + length (escaped s)) })
unfolding quoted escaped chars unescape char
quoted-escaped [] rest out line col =
    settle out (out ++ []) rest line (suc col) (suc (col + 0)) (sym (append-nil out)) (omega arith)
quoted-escaped (c ∷ s) rest out line col =
    let two = λ (b : ℕ).
      quoted-escaped s rest (out ++ char b) line (suc (suc col))
      ∙ settle ((out ++ char b) ++ chars s) (out ++ (char b ++ chars s)) rest line
          (suc (suc (suc col) + length (escaped s))) (suc (col + suc (suc (length (escaped s)))))
          (append_assoc out (char b) (chars s)) (omega arith) in
    let one =
      quoted-escaped s rest (out ++ char c) line (suc col)
      ∙ settle ((out ++ char c) ++ chars s) (out ++ (char c ++ chars s)) rest line
          (suc (suc col + length (escaped s))) (suc (col + suc (length (escaped s))))
          (append_assoc out (char c) (chars s)) (omega arith) in
    elim (Bool-cases (nat_beq c b'\n')) [
      | inl e ↦ let same : c ≡ b'\n' = (nat_beq_iff c b'\n').0 e in rw same (two b'\n')
      | inr e ↦ elim (Bool-cases (nat_beq c b'"')) [
        | inl d ↦ let same : c ≡ b'"' = (nat_beq_iff c b'"').0 d in rw same (two b'"')
        | inr d ↦ elim (Bool-cases (nat_beq c b'\\')) [
          | inl f ↦ let same : c ≡ b'\\' = (nat_beq_iff c b'\\').0 f in rw same (two b'\\')
          | inr f ↦ rw (e, d, f, quoted, e, d, f) one
        ]
      ]
    ]

-- The first byte between the quotes is no quote.
not_triple :
    (s rest : Text)
    → ¬ (peek_at rest 0 ≡ some b'"')
    → starts_with triple_quote (b'"' ∷ escaped s ++ b'"' ∷ rest) ≡ false
unfolding starts_with escaped text_beq peek_at
not_triple [] [] n = refl
not_triple [] (c ∷ rest) n = ground (arith, nat_beq_iff c b'"')
not_triple (c ∷ s) rest n = elim (Bool-cases (nat_beq c b'\n')) [
  | inl e ↦ rw (e, escaped) refl
  | inr e ↦ elim (Bool-cases (nat_beq c b'"')) [
    | inl d ↦ rw (e, d, escaped) refl
    | inr d ↦ elim (Bool-cases (nat_beq c b'\\')) [
      | inl f ↦ rw (e, d, f, escaped) refl
      | inr f ↦ rw (e, d, f, escaped) (rw (text_beq, d) refl)
    ]
  ]
]

-- What `parse_string` reads of a text that is escaped and put between quotes, no quote behind it: the
-- cursor stands behind the closing quote. It comes back as it was exactly if all of it is
-- ASCII; otherwise it comes back longer, by one byte for each of its bytes outside ASCII.
pub parse_string-quotes :
    (s rest : Text) (line col : ℕ)
    → ¬ (peek_at rest 0 ≡ some b'"')
    → (t : Text) × (parse_string
          (record { rest = b'"' ∷ escaped s ++ b'"' ∷ rest; line = line; col = col })
        ≡ done t (record { rest = rest; line = line; col = suc (suc col + length (escaped s)) }))
      × ((t ≡ s) ↔ (high s ≡ 0))
      × (length t ≡ length s + high s)
unfolding parse_string
parse_string-quotes s rest line col n = (
  chars s,
  rw (not_triple s rest n) (unfold peek_at advance in quoted-escaped s rest [] line (suc col)),
  (λ e. same_length s e, chars-ascii s),
  chars-length s,
)
