-- ===== src/Config/Strings/Reads.antt =====
-- What the parts of a document that hold no others read.
use atomr.Base.{
  ℕ, zero, suc, ◌<◌, ◌≡◌, refl, inl, inr, Bool, true, false, not, ◌&&◌, ◌||◌, List, [], ◌∷◌, ◌++◌,
  arith, nat_beq, nat_beq_iff, leb, Bool-cases, length, Text, codes, text_beq, is_utf8,
}
use atomr.Config.Value.Entries.{IsValid}
use atomr.Config.Cursor.{
  HoconError, Parser, peek_at, is_byte, char, starts_with, is_alphanumeric, advance, skip_while,
  slice, skip_ws_inline, line_after, col_after,
}
use atomr.Config.Cursor.Moves.{
  newlines, Beyond, Beyond-trans, one-Beyond, advance-Beyond, advance-moves, skip_while-Beyond,
  skip_ws_inline-Beyond,
}
use atomr.Config.Cursor.Reads.{Reads, Reads-from, Reads-and_then}
use atomr.Config.Strings.{
  unescape, quoted, triple_quote, triple_quoted, parse_string, bare_part, key_part, key_parts,
  parse_key, path_of, parse_substitution,
}

abbrev pub Any : {A : Type 0} → A → Type 0
Any a = Unit

pub next-Beyond :
    (c : ℕ) (l : Text) (line col : ℕ)
    → nat_beq c b'\n' ≡ false
    → Beyond 1
        (record { rest = c ∷ l; line = line; col = col })
        (record { rest = l; line = line; col = suc col })
unfolding newlines
next-Beyond c l line col h = ground arith

-- A byte that is there.
pub at_byte :
    (p : Parser) (b : ℕ) → is_byte (peek_at p.rest 0) b ≡ true → (l : Text) × (p.rest ≡ b ∷ l)
at_byte p b h = of_rest p.rest refl h
  where
    of_rest :
        (r : Text) → p.rest ≡ r → is_byte (peek_at r 0) b ≡ true → (l : Text) × (p.rest ≡ b ∷ l)
    of_rest [] e t = unfold peek_at in absurd (cc t)
    of_rest (c ∷ l) e t =
        unfold peek_at in let same : c ≡ b = (nat_beq_iff c b).0 t in (l, rw (← same) e)

prefixed :
    (p : Parser) → starts_with triple_quote p.rest ≡ true → (c : ℕ) × (l : Text) × (p.rest ≡ c ∷ l)
prefixed p h = of_rest p.rest refl h
  where
    of_rest :
        (r : Text)
        → p.rest ≡ r
        → starts_with triple_quote r ≡ true
        → (c : ℕ) × (l : Text) × (p.rest ≡ c ∷ l)
    of_rest [] e t = unfold starts_with text_beq in absurd (cc t)
    of_rest (c ∷ l) e t = (c, l, e)

module _ (Foreign : HoconError → Type 0) where
  quoted-Reads :
      (escaped : Bool) (l : Text) (line col : ℕ) (out : Text)
      → Reads Foreign Any 0
          (record { rest = l; line = line; col = col })
          (quoted escaped l line col out)
  unfolding quoted
  quoted-Reads false [] line col out = inl (omega arith)
  quoted-Reads true [] line col out = inl (omega arith)
  quoted-Reads true (c ∷ l) line col out =
      Reads-from Foreign Any 1 0 0 (record { rest = c ∷ l; line = line; col = col })
        (record { rest = l; line = line_after c line; col = col_after c col })
        (quoted false l (line_after c line) (col_after c col) (out ++ unescape c))
        (one-Beyond c l line col) (omega arith)
        (quoted-Reads false l (line_after c line) (col_after c col) (out ++ unescape c))
  quoted-Reads false (c ∷ l) line col out = elim (Bool-cases (nat_beq c b'\n')) [
    | inl e ↦ rw (e, quoted) (inl (omega arith))
    | inr e ↦
        let next = next-Beyond c l line col e in
        elim (Bool-cases (nat_beq c b'"')) [
          | inl d ↦ rw (e, d, quoted) (tt, omega (arith, next))
          | inr d ↦ elim (Bool-cases (nat_beq c b'\\')) [
            | inl s ↦
                rw (e, d, s, quoted)
                  (Reads-from Foreign Any 1 0 0 (record { rest = c ∷ l; line = line; col = col })
                    (record { rest = l; line = line; col = suc col })
                    (quoted true l line (suc col) out) next (omega arith)
                    (quoted-Reads true l line (suc col) out))
            | inr s ↦
                rw (e, d, s, quoted)
                  (Reads-from Foreign Any 1 0 0 (record { rest = c ∷ l; line = line; col = col })
                    (record { rest = l; line = line; col = suc col })
                    (quoted false l line (suc col) (out ++ char c)) next (omega arith)
                    (quoted-Reads false l line (suc col) (out ++ char c)))
          ]
        ]
  ]

  triple_quoted-Reads : (p : Parser) → Reads Foreign Any 0 p (triple_quoted p)
  unfolding triple_quoted
  triple_quoted-Reads p =
      let go : ℕ → Text → Bool =
        λ c l. leb 2 (length l) && not (starts_with triple_quote (c ∷ l)) in
      let q = skip_while go p.rest p.line p.col in
      let moved : Beyond 0 p q = skip_while-Beyond go p.rest p.line p.col in
      elim (Bool-cases (leb (length q.rest) 2 || not (is_utf8 (slice p q)))) [
        | inl e ↦ rw e (inl (omega arith))
        | inr e ↦ rw e (tt, omega (arith, advance-Beyond 3 q))
      ]

  pub parse_string-Reads : (p : Parser) → Reads Foreign Any 1 p (parse_string p)
  unfolding parse_string
  parse_string-Reads p = elim (Bool-cases (starts_with triple_quote p.rest)) [
    | inl e ↦
        let (c, l, at) = prefixed p e in
        rw e (
          Reads-from Foreign Any 1 0 1 p (advance 3 p) (triple_quoted (advance 3 p))
            (advance-moves 2 c l p at) (omega arith) (triple_quoted-Reads (advance 3 p)))
    | inr e ↦ elim (Bool-cases (is_byte (peek_at p.rest 0) b'"')) [
      | inl h ↦
          let (l, at) = at_byte p b'"' h in
          let q = advance 1 p in
          rw (e, h)
            (Reads-from Foreign Any 1 0 1 p q (quoted false q.rest q.line q.col [])
              (advance-moves 0 b'"' l p at) (omega arith)
              (quoted-Reads false q.rest q.line q.col []))
      | inr h ↦ rw (e, h) (inl (omega arith))
    ]
  ]

  bare_part-Reads : (p : Parser) → Reads Foreign Any 1 p (bare_part p)
  unfolding bare_part
  bare_part-Reads p =
      let go : ℕ → Text → Bool = λ c l. is_alphanumeric c || nat_beq c b'_' || nat_beq c b'-' in
      let q = skip_while go p.rest p.line p.col in
      let moved : Beyond 0 p q = skip_while-Beyond go p.rest p.line p.col in
      elim (Bool-cases (nat_beq (length p.rest) (length q.rest))) [
        | inl e ↦ rw e (inl (omega arith))
        | inr e ↦
            let more : Beyond 1 p q = ground arith in
            elim (Bool-cases (is_utf8 (slice p q))) [
              | inl u ↦ rw (e, u) (tt, more)
              | inr u ↦ rw (e, u) (inl (omega arith))
            ]
      ]

  key_part-Reads : (p : Parser) → Reads Foreign Any 1 p (key_part p)
  unfolding key_part
  key_part-Reads p = elim (Bool-cases (is_byte (peek_at p.rest 0) b'"')) [
    | inl e ↦ rw e (parse_string-Reads p)
    | inr e ↦ rw e (bare_part-Reads p)
  ]

  key_parts-Reads :
      (n : ℕ) (p : Parser) (parts : List Text)
      → length p.rest < n
      → Reads Foreign Any 1 p (key_parts n p parts)
  unfolding key_parts
  key_parts-Reads zero p parts h = absurd (omega arith)
  key_parts-Reads (suc n) p parts h =
      let start = skip_ws_inline p in
      let moved = skip_ws_inline-Beyond p in
      Reads-from Foreign Any 0 1 1 p start _ moved (omega arith) (
        Reads-and_then Foreign Any Any 1 1 start (key_part start) _ (key_part-Reads start)
          (λ part q a b. elim (Bool-cases (is_byte (peek_at q.rest 0) b'.')) [
            | inl e ↦ rw e (
                Reads-from Foreign Any 1 1 1 start (advance 1 q) _
                  (Beyond-trans 1 0 1 start q (advance 1 q) b (advance-Beyond 1 q) (omega arith))
                  (omega arith)
                  (key_parts-Reads n (advance 1 q) (parts ++ part ∷ [])
                    (omega (arith, advance-Beyond 1 q))))
            | inr e ↦ rw e (tt, b)
          ]))

  pub parse_key-Reads : (p : Parser) → Reads Foreign Any 1 p (parse_key p)
  unfolding parse_key
  parse_key-Reads p = key_parts-Reads (suc (length p.rest)) p [] (omega arith)

  path_of-Reads : (marker : Text) (p : Parser) → Reads Foreign IsValid 0 p (path_of marker p)
  unfolding path_of IsValid
  path_of-Reads marker p =
      let go : ℕ → Text → Bool = λ c l. not (nat_beq c b'}') in
      let q = skip_while go p.rest p.line p.col in
      let moved : Beyond 0 p q = skip_while-Beyond go p.rest p.line p.col in
      elim (Bool-cases (not (is_byte (peek_at q.rest 0) b'}') || not (is_utf8 (slice p q)))) [
        | inl e ↦ rw e (inl (omega arith))
        | inr e ↦ rw e (tt, omega (arith, advance-Beyond 1 q))
      ]

  pub parse_substitution-Reads :
      (c : ℕ) (l : Text) (p : Parser)
      → p.rest ≡ c ∷ l
      → Reads Foreign IsValid 1 p (parse_substitution p)
  unfolding parse_substitution
  parse_substitution-Reads c l p at =
      let q = advance 2 p in
      let b : Beyond 1 p q = advance-moves 1 c l p at in
      elim (Bool-cases (is_byte (peek_at q.rest 0) b'?')) [
        | inl e ↦ rw e (
            Reads-from Foreign IsValid 1 0 1 p (advance 1 q)
              (path_of (codes "__atomr_sub_opt::") (advance 1 q))
              (Beyond-trans 1 0 1 p q (advance 1 q) b (advance-Beyond 1 q) (omega arith))
              (omega arith) (path_of-Reads (codes "__atomr_sub_opt::") (advance 1 q)))
        | inr e ↦ rw e (
            Reads-from Foreign IsValid 1 0 1 p q (path_of (codes "__atomr_sub::") q) b (omega arith)
              (path_of-Reads (codes "__atomr_sub::") q))
      ]
