-- ===== src/Config/Cursor/Reads.antt =====
-- What a part of the parser promises: a good value and progress, or an error that names a line of
-- what it read.
use atomr.Base.{ℕ, ◌+◌, ◌≤◌, ◌⊎◌, inl, inr, arith}
use atomr.Config.Cursor.{
  HoconError, unexpected, unterminated, missing_substitution, include, io, expected, Parser, Run,
  done, failed, out_of_fuel, and_then,
}
use atomr.Config.Cursor.Moves.{newlines, Beyond}

-- A line of what `p` still has to read.
abbrev pub IsLine : Parser → ℕ → Type 0
IsLine p line = (p.line ≤ line) × (line ≤ p.line + newlines p.rest)

-- An error that names a line names one from `p` on.
abbrev pub Names : Parser → HoconError → Type 0
Names p (unexpected ch line col) = IsLine p line
Names p (unterminated kind line) = IsLine p line
Names p (expected what found line) = IsLine p line
Names p (missing_substitution key) = Unit
Names p (include why) = Unit
Names p (io path source) = Unit

-- `Foreign` holds of the errors of other documents.
module _ (Foreign : HoconError → Type 0) where
  abbrev pub Reads : {A : Type 0} → (A → Type 0) → ℕ → Parser → Run A → Type 0
  Reads Good k p (done a q) = Good a × Beyond k p q
  Reads Good k p (failed e) = Names p e ⊎ Foreign e
  Reads Good k p out_of_fuel = ⊥

  later : (k : ℕ) (p q : Parser) (e : HoconError) → Beyond k p q → Names q e → Names p e
  later k p q (unexpected ch line col) b h = omega arith
  later k p q (unterminated kind line) b h = omega arith
  later k p q (expected what found line) b h = omega arith
  later k p q (missing_substitution key) b h = tt
  later k p q (include why) b h = tt
  later k p q (io path source) b h = tt

  pub Reads-from :
      {A : Type 0} (Good : A → Type 0) (i j k : ℕ) (p q : Parser) (r : Run A)
      → Beyond i p q
      → k ≤ i + j
      → Reads Good j q r
      → Reads Good k p r
  Reads-from Good i j k p q (done a r) b h (g, m) = (g, omega arith)
  Reads-from Good i j k p q (failed e) b h (inl n) = inl (later i p q e b n)
  Reads-from Good i j k p q (failed e) b h (inr f) = inr f
  Reads-from Good i j k p q out_of_fuel b h a = a

  pub Reads-and_then :
      {A B : Type 0} (Good : A → Type 0) (Fine : B → Type 0) (i k : ℕ) (p : Parser) (m : Run A)
      (f : A → Parser → Run B)
      → Reads Good i p m
      → ((a : A) (q : Parser) → Good a → Beyond i p q → Reads Fine k p (f a q))
      → Reads Fine k p (and_then m f)
  Reads-and_then Good Fine i k p (done a q) f (g, b) h = h a q g b
  Reads-and_then Good Fine i k p (failed e) f n h = n
  Reads-and_then Good Fine i k p out_of_fuel f n h = n
