-- ===== src/Config/Hocon/Parts.antt =====
-- Scalars, includes and assignments: what they read and return.
use atomr.Base.{
  ℕ, ◌-◌, ◌≡◌, refl, inl, inr, ◌⊎◌, Bool, true, false, Option, some, List, [], ◌∷◌, arith, nat_beq,
  Bool-cases, Option-cases, length, Text, codes, text_beq, is_utf8, ap, subst, trim, trim-nil,
}
use atomr.Config.Value.{
  ConfigValue, null, bool, int, float, string, array, object, Fields, object_of,
}
use atomr.Config.Value.Entries.{IsValid, IsOrdered}
use atomr.Config.Cursor.{HoconError, Parser, advance, skip_while, slice, skip_ws_inline}
use atomr.Config.Cursor.Moves.{
  Beyond, Beyond-trans, advance-Beyond, skip_while-Beyond, skip_ws_inline-Beyond,
}
use atomr.Config.Cursor.Reads.{Reads, Reads-from, Reads-and_then}
use atomr.Config.Scalar.{scalar_from_str, parse_i64}
use atomr.Config.Strings.{parse_string}
use atomr.Config.Strings.Reads.{Any, parse_string-Reads}
use atomr.Config.Dotted.Merged.{
  deep_merge-IsOrdered, insert_dotted-IsOrdered, append_dotted-IsOrdered,
}
use atomr.Config.Hocon.{
  Parsed, ok, err, cut_off, in_scalar, scalar_or_error, parse_unquoted_scalar, included,
  parse_include, assigned,
}

pub List-cases {ℓ} : {A : Type ℓ} (l : List A) → (l ≡ []) ⊎ ((a : A) × (r : List A) × (l ≡ a ∷ r))
List-cases [] = inl refl
List-cases (a ∷ r) = inr (a, r, refl)

-- Reading a file ends, and gives a value whose keys ascend or an error.
unfoldable pub Answers : Parsed → Type 0
Answers (ok v) = IsValid v
Answers (err e) = Unit
Answers cut_off = ⊥

scalar-IsValid : (parse_f64 : Text → Option ℕ) (s : Text) → IsValid (scalar_from_str parse_f64 s)
unfolding scalar_from_str IsValid
scalar-IsValid parse_f64 s = elim (Bool-cases (text_beq s (codes "null"))) [
  | inl a ↦ rw a tt
  | inr a ↦ elim (Bool-cases (text_beq s (codes "true"))) [
    | inl b ↦ rw (a, b) tt
    | inr b ↦ elim (Bool-cases (text_beq s (codes "false"))) [
      | inl c ↦ rw (a, b, c) tt
      | inr c ↦ elim (Option-cases (parse_i64 s)) [
        | inr (i, d) ↦ rw (a, b, c, d, scalar_from_str) tt
        | inl d ↦ elim (Option-cases (parse_f64 s)) [
          | inl e ↦ rw (a, b, c, d, e, scalar_from_str) tt
          | inr (x, e) ↦ rw (a, b, c, d, e, scalar_from_str) tt
        ]
      ]
    ]
  ]
]

nonempty :
    (p q : Parser) (c : ℕ) (s : Text) → Beyond 0 p q → trim (slice p q) ≡ c ∷ s → Beyond 1 p q
nonempty p q c s m t = elim (Bool-cases (nat_beq (length p.rest) (length q.rest))) [
  | inr e ↦ ground arith
  | inl e ↦
      let zero_long : length p.rest - length q.rest ≡ 0 = ground arith in
      let empty : slice p q ≡ [] = unfold slice in rw zero_long refl in
      absurd (cc (t, ap trim empty, trim-nil))
]

object_of-IsOrdered :
    (v : ConfigValue) (f : Fields) → IsValid v → object_of (some v) ≡ some f → IsOrdered f
unfolding object_of IsValid
object_of-IsOrdered null f h e = absurd (cc e)
object_of-IsOrdered (bool b) f h e = absurd (cc e)
object_of-IsOrdered (int i) f h e = absurd (cc e)
object_of-IsOrdered (float x) f h e = absurd (cc e)
object_of-IsOrdered (string s) f h e = absurd (cc e)
object_of-IsOrdered (array l) f h e = absurd (cc e)
object_of-IsOrdered (object g) f h e = let same : g ≡ f = cc e in subst IsOrdered same h

module _ (do_include : Text → Parsed) (parse_f64 : Text → Option ℕ) where
  -- An error of an included file.
  abbrev pub Foreign : HoconError → Type 0
  Foreign e = (path : Text) × (do_include path ≡ err e)

  pub parse_unquoted_scalar-Reads :
      (p : Parser) → Reads Foreign IsValid 1 p (parse_unquoted_scalar do_include parse_f64 p)
  unfolding parse_unquoted_scalar scalar_or_error
  parse_unquoted_scalar-Reads p =
      let q = skip_while in_scalar p.rest p.line p.col in
      let moved : Beyond 0 p q = skip_while-Beyond in_scalar p.rest p.line p.col in
      elim (Bool-cases (is_utf8 (slice p q))) [
        | inl e ↦ rw e (elim (List-cases (trim (slice p q))) [
          | inl t ↦ rw (t, scalar_or_error) (inl (omega arith))
          | inr (c, s, t) ↦
              let more : Beyond 1 p q = nonempty p q c s moved t in
              rw (t, scalar_or_error) (scalar-IsValid parse_f64 (c ∷ s), more)
        ])
        | inr e ↦ rw e (inl (omega arith))
      ]

  included-Reads :
      (path : Text) (r : Parsed) (obj : Fields) (p : Parser)
      → do_include path ≡ r
      → Answers r
      → IsOrdered obj
      → Reads Foreign IsOrdered 0 p (included do_include parse_f64 path r obj p)
  unfolding included Answers
  included-Reads path (ok v) obj p e a h = elim (Option-cases (object_of (some v))) [
    | inl o ↦ rw (o, included) (inl tt)
    | inr (f, o) ↦
        let valid : IsOrdered f = object_of-IsOrdered v f a o in
        rw (o, included) (deep_merge-IsOrdered obj f h valid, omega arith)
  ]
  included-Reads path (err f) obj p e a h = inr (path, e)
  included-Reads path cut_off obj p e a h = absurd a

  pub assigned-IsOrdered :
      (obj : Fields) (key : List Text) (v : ConfigValue) (append : Bool)
      → IsOrdered obj
      → IsValid v
      → IsOrdered (assigned do_include parse_f64 obj key (v, append))
  unfolding assigned
  assigned-IsOrdered obj key v true h w = append_dotted-IsOrdered key obj v h w
  assigned-IsOrdered obj key v false h w = insert_dotted-IsOrdered key obj v h w

  pub parse_include-Reads :
      (obj : Fields) (p : Parser)
      → ((path : Text) → Answers (do_include path))
      → IsOrdered obj
      → Reads Foreign IsOrdered 1 p (parse_include do_include parse_f64 obj p)
  unfolding parse_include
  parse_include-Reads obj p answers h =
      let q = advance 7 p in
      let r = skip_ws_inline q in
      let moved =
        Beyond-trans 0 0 0 p q r (advance-Beyond 7 p) (skip_ws_inline-Beyond q) (omega arith) in
      Reads-from Foreign IsOrdered 0 1 1 p r _ moved (omega arith) (
        Reads-and_then Foreign Any IsOrdered 1 1 r (parse_string r) _ (parse_string-Reads Foreign r)
          (λ path s a b.
            Reads-from Foreign IsOrdered 1 0 1 r s _ b (omega arith)
              (included-Reads path (do_include path) obj s refl (answers path) h)))
