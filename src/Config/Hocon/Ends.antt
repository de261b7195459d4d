-- ===== src/Config/Hocon/Ends.antt =====
-- What values, arrays, assignments and object bodies read, given enough fuel.
use atomr.Base.{
  ℕ, zero, suc, ◌+◌, ◌*◌, ◌<◌, inl, inr, Bool, true, false, ◌&&◌, ◌||◌, Option, ◌∷◌, arith, nat_beq,
  Bool-cases, length, Text, codes, ap,
}
use atomr.Config.Value.{ConfigValue, Items, no_items, Fields, no_fields}
use atomr.Config.Value.Entries.{IsValid, AreValid, IsOrdered}
use atomr.Config.Cursor.{
  HoconError, Parser, done, and_then, peek_at, is_byte, starts_with_keyword, advance,
  skip_ws_inline, skip_ws_and_comments,
}
use atomr.Config.Cursor.Moves.{
  newlines, Beyond, Beyond-trans, advance-moves, skip_ws_inline-Beyond, skip_ws_and_comments-Beyond,
}
use atomr.Config.Cursor.Reads.{Reads, Reads-from, Reads-and_then}
use atomr.Config.Strings.{parse_string, parse_key}
use atomr.Config.Strings.Reads.{Any, parse_string-Reads, parse_key-Reads, parse_substitution-Reads}
use atomr.Config.Dotted.{push}
use atomr.Config.Dotted.Merged.{push-AreValid}
use atomr.Config.Hocon.Parts.{
  List-cases, Answers, Foreign, parse_unquoted_scalar-Reads, assigned-IsOrdered,
  parse_include-Reads,
}
use atomr.Config.Hocon.{
  Parsed, parse_include, assigned, parse_value, parse_array, parse_assignment, parse_object_body,
}

module _ (do_include : Text → Parsed) (parse_f64 : Text → Option ℕ)
    (answers : (path : Text) → Answers (do_include path)) where
  abbrev Told : HoconError → Type 0
  Told = Foreign do_include parse_f64

  -- The value of an assignment.
  abbrev IsValue : ConfigValue × Bool → Type 0
  IsValue (v, append) = IsValid v

  right_side :
      (n k : ℕ) (p : Parser) (append : Bool)
      → ((q : Parser)
          → 2 * length q.rest < n
          → Reads Told IsValid 1 q (parse_value do_include parse_f64 n q))
      → 2 * length p.rest < suc n
      → Beyond 1 p (advance k p)
      → Reads Told IsValue 0 p (
          and_then
            (parse_value do_include parse_f64 n (skip_ws_inline (advance k p)))
            (λ v q. done (v, append) q))
  right_side n k p append values h b =
      let q = skip_ws_inline (advance k p) in
      let m : Beyond 1 p q =
        Beyond-trans 1 0 1 p (advance k p) q b (skip_ws_inline-Beyond (advance k p))
          (omega arith) in
      Reads-from Told IsValue 1 0 0 p q _ m (omega arith) (
        Reads-and_then Told IsValid IsValue 1 0 q (parse_value do_include parse_f64 n q) _
          (values q (omega arith)) (λ v r g t. (g, omega arith)))

  mutual
    unfolding parse_value parse_array parse_assignment parse_object_body IsOrdered

    value-Reads :
        (n : ℕ) (p : Parser)
        → 2 * length p.rest < n
        → Reads Told IsValid 1 p (parse_value do_include parse_f64 n p)
    value-Reads zero p h = absurd (omega arith)
    value-Reads (suc n) p0 h =
        let p = skip_ws_inline p0 in
        let moved = skip_ws_inline-Beyond p0 in
        Reads-from Told IsValid 0 1 1 p0 p _ moved (omega arith) (elim (List-cases p.rest) [
          | inl e ↦ simp (e, parse_value) (inl (omega arith))
          | inr (c, l, e) ↦
              let one = advance-moves 0 c l p e in
              let size = ap (λ (t : Text). length t) e in
              let lines = ap newlines e in
              elim (Bool-cases (nat_beq c b'"')) [
                | inl a ↦
                    simp (e, a, parse_value)
                      (Reads-and_then Told Any IsValid 1 1 p (parse_string p) _
                        (parse_string-Reads Told p) (λ s q g b. (tt, b)))
                | inr a ↦ elim (Bool-cases (nat_beq c b'[')) [
                  | inl b ↦
                      simp (e, a, b, parse_value)
                        (Reads-from Told IsValid 1 0 1 p (advance 1 p) _ one (omega arith)
                          (array-Reads n (advance 1 p) no_items (omega arith) tt))
                  | inr b ↦ elim (Bool-cases (nat_beq c b'{')) [
                    | inl d ↦
                        simp (e, a, b, d, parse_value)
                          (Reads-from Told IsValid 1 0 1 p (advance 1 p) _ one (omega arith) (
                            Reads-and_then Told IsOrdered IsValid 0 0 (advance 1 p)
                              (parse_object_body do_include parse_f64 n (advance 1 p) b'}'
                                no_fields)
                              _ (body-Reads n (advance 1 p) b'}' no_fields (omega arith) tt)
                              (λ inner q g m. (g, m))))
                    | inr d ↦ elim (Bool-cases (nat_beq c b'$' && is_byte (peek_at l 0) b'{')) [
                      | inl f ↦
                          simp (e, a, b, d, f, parse_value) (parse_substitution-Reads Told c l p e)
                      | inr f ↦
                          simp (e, a, b, d, f, parse_value)
                            (parse_unquoted_scalar-Reads do_include parse_f64 p)
                    ]
                  ]
                ]
              ]
        ])

    array-Reads :
        (n : ℕ) (p : Parser) (items : Items)
        → 2 * length p.rest + 1 < n
        → AreValid items
        → Reads Told IsValid 0 p (parse_array do_include parse_f64 n p items)
    array-Reads zero p items h v = absurd (omega arith)
    array-Reads (suc n) p0 items h v =
        let p = skip_ws_and_comments p0 in
        let moved = skip_ws_and_comments-Beyond p0 in
        Reads-from Told IsValid 0 0 0 p0 p _ moved (omega arith) (elim (List-cases p.rest) [
          | inl e ↦ simp (e, parse_array) (inl (omega arith))
          | inr (c, l, e) ↦
              let one = advance-moves 0 c l p e in
              let size = ap (λ (t : Text). length t) e in
              let lines = ap newlines e in
              elim (Bool-cases (nat_beq c b']')) [
                | inl a ↦ simp (e, a, parse_array) (v, omega (arith, one, size, lines))
                | inr a ↦ elim (Bool-cases (nat_beq c b',' || nat_beq c b'\n')) [
                  | inl b ↦
                      simp (e, a, b, parse_array)
                        (Reads-from Told IsValid 1 0 0 p (advance 1 p) _ one (omega arith)
                          (array-Reads n (advance 1 p) items (omega arith) v))
                  | inr b ↦
                      simp (e, a, b, parse_array)
                        (Reads-and_then Told IsValid IsValid 1 0 p
                          (parse_value do_include parse_f64 n p) _ (value-Reads n p (omega arith))
                          (λ w q g m. Reads-from Told IsValid 1 0 0 p q _ m (omega arith) (
                            array-Reads n q (push items w) (omega arith)
                              (push-AreValid items w v g))))
                ]
              ]
        ])

    assignment-Reads :
        (n : ℕ) (p : Parser)
        → 2 * length p.rest < n
        → Reads Told IsValue 0 p (parse_assignment do_include parse_f64 n p)
    assignment-Reads zero p h = absurd (omega arith)
    assignment-Reads (suc n) p h = elim (List-cases p.rest) [
      | inl e ↦ simp (e, parse_assignment) (inl (omega arith))
      | inr (c, l, e) ↦
          let one = advance-moves 0 c l p e in
          elim (Bool-cases (nat_beq c b'{')) [
            | inl a ↦
                simp (e, a, parse_assignment)
                  (Reads-from Told IsValue 1 0 0 p (advance 1 p) _ one (omega arith) (
                    Reads-and_then Told IsOrdered IsValue 0 0 (advance 1 p)
                      (parse_object_body do_include parse_f64 n (advance 1 p) b'}' no_fields) _
                      (body-Reads n (advance 1 p) b'}' no_fields (omega arith) tt)
                      (λ inner q g m. (g, m))))
            | inr a ↦ elim (Bool-cases (nat_beq c b'+' && is_byte (peek_at l 0) b'=')) [
              | inl b ↦
                  simp (e, a, b, parse_assignment)
                    (right_side n 2 p true (λ q m. value-Reads n q m) h (advance-moves 1 c l p e))
              | inr b ↦ elim (Bool-cases (nat_beq c b'=' || nat_beq c b':')) [
                | inl d ↦
                    simp (e, a, b, d, parse_assignment)
                      (right_side n 1 p false (λ q m. value-Reads n q m) h one)
                | inr d ↦ simp (e, a, b, d, parse_assignment) (inl (omega arith))
              ]
            ]
          ]
    ]

    pub body-Reads :
        (n : ℕ) (p : Parser) (terminator : ℕ) (obj : Fields)
        → 2 * length p.rest + 1 < n
        → IsOrdered obj
        → Reads Told IsOrdered 0 p (parse_object_body do_include parse_f64 n p terminator obj)
    body-Reads zero p terminator obj h v = absurd (omega arith)
    body-Reads (suc n) p0 terminator obj h v =
        let p = skip_ws_and_comments p0 in
        let moved = skip_ws_and_comments-Beyond p0 in
        Reads-from Told IsOrdered 0 0 0 p0 p _ moved (omega arith) (elim (List-cases p.rest) [
          | inl e ↦ elim (Bool-cases (nat_beq terminator 0)) [
            | inl a ↦ simp (e, parse_object_body, a) (v, omega arith)
            | inr a ↦ simp (e, parse_object_body, a) (inl (omega arith))
          ]
          | inr (c, l, e) ↦
              let one = advance-moves 0 c l p e in
              let size = ap (λ (t : Text). length t) e in
              let lines = ap newlines e in
              elim (Bool-cases (nat_beq c terminator)) [
                | inl a ↦ simp (e, a, parse_object_body) (v, omega (arith, one, size, lines))
                | inr a ↦ elim (Bool-cases (nat_beq c b',' || nat_beq c b'\n' || nat_beq c b';')) [
                  | inl b ↦
                      simp (e, a, b, parse_object_body)
                        (Reads-from Told IsOrdered 1 0 0 p (advance 1 p) _ one (omega arith)
                          (body-Reads n (advance 1 p) terminator obj (omega arith) v))
                  | inr b ↦ elim (Bool-cases (starts_with_keyword (codes "include") (c ∷ l))) [
                    | inl d ↦
                        simp (e, a, b, d, parse_object_body)
                          (Reads-and_then Told IsOrdered IsOrdered 1 0 p
                            (parse_include do_include parse_f64 obj p) _
                            (parse_include-Reads do_include parse_f64 obj p answers v)
                            (λ merged q g m.
                              Reads-from Told IsOrdered 1 0 0 p q _ m (omega arith)
                                (body-Reads n q terminator merged (omega arith) g)))
                    | inr d ↦
                        simp (e, a, b, d, parse_object_body)
                          (Reads-and_then Told Any IsOrdered 1 0 p (parse_key p) _
                            (parse_key-Reads Told p)
                            (λ key q g m.
                              let r = skip_ws_inline q in
                              let t : Beyond 1 p r =
                                Beyond-trans 1 0 1 p q r m (skip_ws_inline-Beyond q)
                                  (omega arith) in
                              Reads-from Told IsOrdered 1 0 0 p r _ t (omega arith) (
                                Reads-and_then Told IsValue IsOrdered 0 0 r
                                  (parse_assignment do_include parse_f64 n r) _
                                  (assignment-Reads n r (omega arith))
                                  (λ value s w u.
                                    Reads-from Told IsOrdered 0 0 0 r s _ u (omega arith) (
                                      body-Reads n s terminator
                                        (assigned do_include parse_f64 obj key value) (omega arith)
                                        (assigned-IsOrdered do_include parse_f64 obj key value.0
                                          value.1 v w))))))
                  ]
                ]
              ]
        ])
