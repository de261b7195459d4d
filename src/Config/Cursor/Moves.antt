-- ===== src/Config/Cursor/Moves.antt =====
-- How the cursor moves: the bytes it reads, and the line it counts.
use atomr.Base.{
  ℕ, zero, suc, ◌+◌, ◌≤◌, ◌≡◌, inl, inr, Bool, ◌||◌, [], ◌∷◌, arith, nat_beq, if◌then◌else◌,
  Bool-cases, Option-cases, length, Text,
}
use atomr.Config.Cursor.{
  Parser, line_after, col_after, advance, skip_while, skip_ws_inline, Skip, between, skips, skip,
  skip_ws_and_comments,
}

unfoldable pub newlines : Text → ℕ
newlines [] = 0
newlines (c ∷ l) = if nat_beq c b'\n' then suc (newlines l) else newlines l

-- `q` stands at least `k` bytes behind `p`, and has counted the line ends between them.
abbrev pub Beyond : ℕ → Parser → Parser → Type 0
Beyond k p q =
    (length q.rest + k ≤ length p.rest)
    × (q.line + newlines q.rest ≡ p.line + newlines p.rest)
    × (p.line ≤ q.line)

pub Beyond-trans :
    (i j k : ℕ) (p q r : Parser) → Beyond i p q → Beyond j q r → k ≤ i + j → Beyond k p r
Beyond-trans i j k p q r a b h = omega arith

pub one-Beyond :
    (c : ℕ) (l : Text) (line col : ℕ)
    → Beyond 1
        (record { rest = c ∷ l; line = line; col = col })
        (record { rest = l; line = line_after c line; col = col_after c col })
unfolding newlines
one-Beyond c l line col = ground arith

advance_at-Beyond :
    (n : ℕ) (l : Text) (line col : ℕ)
    → Beyond 0
        (record { rest = l; line = line; col = col })
        (advance n (record { rest = l; line = line; col = col }))
unfolding advance
advance_at-Beyond zero l line col = omega arith
advance_at-Beyond (suc n) [] line col = omega arith
advance_at-Beyond (suc n) (c ∷ l) line col =
    let next : Parser = record { rest = l; line = line_after c line; col = col_after c col } in
    Beyond-trans 1 0 0 (record { rest = c ∷ l; line = line; col = col }) next (advance n next)
      (one-Beyond c l line col) (advance_at-Beyond n l (line_after c line) (col_after c col))
      (omega arith)

pub advance-Beyond : (n : ℕ) (p : Parser) → Beyond 0 p (advance n p)
advance-Beyond n p = advance_at-Beyond n p.rest p.line p.col

-- At a byte it moves on.
pub advance-moves :
    (n c : ℕ) (l : Text) (p : Parser) → p.rest ≡ c ∷ l → Beyond 1 p (advance (suc n) p)
unfolding advance
advance-moves n c l p e = of_rest p.rest p.line p.col e
  where
    of_rest :
        (r : Text) (line col : ℕ)
        → r ≡ c ∷ l
        → Beyond 1
            (record { rest = r; line = line; col = col })
            (advance (suc n) (record { rest = r; line = line; col = col }))
    of_rest [] line col h = absurd (cc h)
    of_rest (b ∷ r) line col h =
        let next : Parser = record { rest = r; line = line_after b line; col = col_after b col } in
        Beyond-trans 1 0 1 (record { rest = b ∷ r; line = line; col = col }) next (advance n next)
          (one-Beyond b r line col) (advance-Beyond n next) (omega arith)

pub skip_while-Beyond :
    (go : ℕ → Text → Bool) (l : Text) (line col : ℕ)
    → Beyond 0 (record { rest = l; line = line; col = col }) (skip_while go l line col)
unfolding skip_while
skip_while-Beyond go [] line col = omega arith
skip_while-Beyond go (c ∷ l) line col = elim (Bool-cases (go c l)) [
  | inl e ↦
      let next : Parser = record { rest = l; line = line_after c line; col = col_after c col } in
      rw (e, skip_while)
        (Beyond-trans 1 0 0 (record { rest = c ∷ l; line = line; col = col }) next
          (skip_while go l (line_after c line) (col_after c col)) (one-Beyond c l line col)
          (skip_while-Beyond go l (line_after c line) (col_after c col)) (omega arith))
  | inr e ↦ rw (e, skip_while) (omega arith)
]

pub skip_ws_inline-Beyond : (p : Parser) → Beyond 0 p (skip_ws_inline p)
unfolding skip_ws_inline
skip_ws_inline-Beyond p =
    skip_while-Beyond (λ c l. nat_beq c b' ' || nat_beq c b'\t') p.rest p.line p.col

skip-Beyond :
    (at : Skip) (l : Text) (line col : ℕ)
    → Beyond 0 (record { rest = l; line = line; col = col }) (skip at l line col)
unfolding skip
skip-Beyond at [] line col = omega arith
skip-Beyond at (c ∷ l) line col = elim (Option-cases (skips at c l)) [
  | inl e ↦ rw (e, skip) (omega arith)
  | inr (s, e) ↦
      let next : Parser = record { rest = l; line = line_after c line; col = col_after c col } in
      rw (e, skip)
        (Beyond-trans 1 0 0 (record { rest = c ∷ l; line = line; col = col }) next
          (skip s l (line_after c line) (col_after c col)) (one-Beyond c l line col)
          (skip-Beyond s l (line_after c line) (col_after c col)) (omega arith))
]

pub skip_ws_and_comments-Beyond : (p : Parser) → Beyond 0 p (skip_ws_and_comments p)
unfolding skip_ws_and_comments
skip_ws_and_comments-Beyond p = skip-Beyond between p.rest p.line p.col
