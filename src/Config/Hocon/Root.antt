-- ===== src/Config/Hocon/Root.antt =====
-- `parse_root`: what a document comes to.
use atomr.Base.{ℕ, ◌≡◌, refl, inl, inr, ◌⊎◌, Option, arith, Bool-cases, Text}
use atomr.Config.Value.{object, Fields, no_fields}
use atomr.Config.Value.Entries.{IsOrdered}
use atomr.Config.Cursor.{
  HoconError, unexpected, unterminated, expected, Parser, Run, done, failed, out_of_fuel, and_then,
  peek_at, is_byte, starts_with_keyword, advance, skip_while, slice, skip_ws_inline,
  skip_ws_and_comments,
}
use atomr.Config.Cursor
use atomr.Config.Cursor.Moves.{Beyond, Beyond-trans, advance-Beyond, skip_ws_and_comments-Beyond}
use atomr.Config.Cursor.Reads.{Reads, Reads-from, Reads-and_then, Names}
use atomr.Config.Hocon.Ends.{body-Reads}
use atomr.Config.Hocon.Parts.{List-cases, Answers, Foreign}
use atomr.Config.Hocon.{
  Parsed, ok, err, cut_off, parse_object_body, at_end, parsed_root, enough, parse_root,
}

-- What a document may come to: an object whose keys ascend; an error that names no line, or a line
-- of the document; or an error of an included file.
abbrev pub IsAnswer : (do_include : Text → Parsed) → Text → Parsed → Type 0
IsAnswer do_include src (ok v) = (f : Fields) × (v ≡ object f) × IsOrdered f
IsAnswer do_include src (err e) =
    Names (record { rest = src; line = 1; col = 1 }) e ⊎ ((path : Text) × (do_include path ≡ err e))
IsAnswer do_include src cut_off = ⊥

module _ (do_include : Text → Parsed) (parse_f64 : Text → Option ℕ)
    (answers : (path : Text) → Answers (do_include path)) where
  abbrev Told : HoconError → Type 0
  Told = Foreign do_include parse_f64

  root-IsAnswer :
      (src : Text) (r : Run Fields)
      → Reads Told IsOrdered 0 (record { rest = src; line = 1; col = 1 }) r
      → IsAnswer do_include src (parsed_root do_include parse_f64 r)
  unfolding parsed_root at_end
  root-IsAnswer src (failed e) h = h
  root-IsAnswer src out_of_fuel h = absurd h
  root-IsAnswer src (done f p) (v, b) =
      let q = skip_ws_and_comments p in
      let moved = skip_ws_and_comments-Beyond p in
      elim (List-cases q.rest) [
        | inl e ↦ simp (e, at_end) (f, refl, v)
        | inr (c, l, e) ↦ simp (e, at_end) (inl (omega arith))
      ]

  pub parse_root-Ends : (src : Text) → IsAnswer do_include src (parse_root do_include parse_f64 src)
  unfolding parse_root Cursor.new enough
  parse_root-Ends src =
      let start : Parser = record { rest = src; line = 1; col = 1 } in
      let p = skip_ws_and_comments start in
      let moved : Beyond 0 start p = skip_ws_and_comments-Beyond start in
      elim (Bool-cases (is_byte (peek_at p.rest 0) b'{')) [
        | inr e ↦
            rw (e, parse_root)
              (root-IsAnswer src (parse_object_body do_include parse_f64 (enough src) p 0 no_fields)
                (Reads-from Told IsOrdered 0 0 0 start p _ moved (omega arith) (
                  body-Reads do_include parse_f64 answers (enough src) p 0 no_fields (omega arith)
                    (unfold IsOrdered in tt))))
        | inl e ↦
            rw (e, parse_root)
              (root-IsAnswer src _ (
                Reads-from Told IsOrdered 0 0 0 start (advance 1 p) _
                  (Beyond-trans 0 0 0 start p (advance 1 p) moved (advance-Beyond 1 p)
                    (omega arith))
                  (omega arith)
                  (Reads-and_then Told IsOrdered IsOrdered 0 0 (advance 1 p)
                    (parse_object_body do_include parse_f64 (enough src) (advance 1 p) b'}'
                      no_fields)
                    _
                    (body-Reads do_include parse_f64 answers (enough src) (advance 1 p) b'}'
                      no_fields (omega (arith, advance-Beyond 1 p)) (unfold IsOrdered in tt))
                    (λ o q g m. (g, omega (arith, skip_ws_and_comments-Beyond q))))))
      ]
