-- ===== src/Config/Resolve/Answer.antt =====
-- `parse` ends on every document.
use atomr.Base.{
  ℕ, ◌≡◌, refl, subst, inl, inr, Option, some, List, [], ◌∷◌, arith, Option-cases, Text,
}
use atomr.Config.Value.{
  ConfigValue, null, bool, int, float, string, array, object, Items, no_items, item, Fields,
  no_fields, field, get,
}
use atomr.Config.Value.Entries.{Above, IsValid, AreValid, IsOrdered, get-IsValid}
use atomr.Config.Cursor.{missing_substitution}
use atomr.Config.Hocon.{Parsed, ok, err, cut_off, parse_root}
use atomr.Config.Hocon.Parts.{Answers}
use atomr.Config.Hocon.Root.{IsAnswer, parse_root-Ends}
use atomr.Config.Resolve.{
  Result, fine, fault, bind, strip_prefix, lookup_segments, lookup_path, split_dots, strict_marker,
  optional_marker, strict, optional, resolve_text, resolve_in, resolve_items, resolve_fields,
  resolve_substitutions, finished, second_pass, parse,
}

lookup_segments-IsValid :
    (segs : List Text) (cur v : ConfigValue)
    → IsValid cur
    → lookup_segments cur segs ≡ some v
    → IsValid v
unfolding lookup_segments IsValid
lookup_segments-IsValid [] cur v h e = let same : cur ≡ v = cc e in subst IsValid same h
lookup_segments-IsValid (seg ∷ segs) (object o) v h e = elim (Option-cases (get seg o)) [
  | inl g ↦ absurd (ground arith)
  | inr (next, g) ↦ lookup_segments-IsValid segs next v (get-IsValid seg next o h g) (ground arith)
]
lookup_segments-IsValid (seg ∷ segs) null v h e = absurd (cc e)
lookup_segments-IsValid (seg ∷ segs) (bool b) v h e = absurd (cc e)
lookup_segments-IsValid (seg ∷ segs) (int i) v h e = absurd (cc e)
lookup_segments-IsValid (seg ∷ segs) (float x) v h e = absurd (cc e)
lookup_segments-IsValid (seg ∷ segs) (string s) v h e = absurd (cc e)
lookup_segments-IsValid (seg ∷ segs) (array l) v h e = absurd (cc e)

-- A value of the right kind, or the one error that this pass makes.
abbrev Resolves : {A : Type 0} → (A → Type 0) → Result A → Type 0
Resolves Good (fine a) = Good a
Resolves Good (fault e) = (key : Text) × (e ≡ missing_substitution key)

Resolves-bind :
    {A B : Type 0} (Good : A → Type 0) (Well : B → Type 0) (r : Result A) (f : A → Result B)
    → Resolves Good r
    → ((a : A) → Good a → Resolves Well (f a))
    → Resolves Well (bind r f)
Resolves-bind Good Well (fine a) f g h = h a g
Resolves-bind Good Well (fault e) f g h = g

-- The keys are those of `o`.
abbrev IsCopy : Fields → Fields → Type 0
IsCopy o out = IsOrdered out × ((k : Text) → Above k o → Above k out)

module _ (env : Text → Option Text) (root : ConfigValue) (valid : IsValid root) where
  text-Resolves : (s : Text) → Resolves IsValid (resolve_text env s root)
  unfolding resolve_text IsValid strict optional
  text-Resolves s = elim (Option-cases (strip_prefix strict_marker s)) [
    | inr (rest, e) ↦ elim (Option-cases (lookup_path root rest)) [
      | inl a ↦ rw (e, resolve_text, a) (rest, refl)
      | inr (v, a) ↦
          rw (e, resolve_text, a)
            (lookup_segments-IsValid (split_dots [] rest) root v valid (unfold lookup_path in a))
    ]
    | inl e ↦ elim (Option-cases (strip_prefix optional_marker s)) [
      | inl d ↦ rw (e, d, resolve_text) tt
      | inr (rest, d) ↦ elim (Option-cases (env rest)) [
        | inl a ↦ rw (e, d, resolve_text, a) tt
        | inr (x, a) ↦ rw (e, d, resolve_text, a) tt
      ]
    ]
  ]

  mutual
    unfolding resolve_in IsOrdered

    in-Resolves : (v : ConfigValue) → IsValid v → Resolves IsValid (resolve_in env v root)
    in-Resolves null h = tt
    in-Resolves (bool b) h = tt
    in-Resolves (int i) h = tt
    in-Resolves (float x) h = tt
    in-Resolves (string s) h = text-Resolves s
    in-Resolves (array l) h =
        Resolves-bind AreValid IsValid (resolve_items env l root) _ (items-Resolves l h)
          (λ out g. g)
    in-Resolves (object o) h =
        Resolves-bind (IsCopy o) IsValid (resolve_fields env o root) _ (fields-Resolves o h)
          (λ out g. g.0)

    items-Resolves : (l : Items) → AreValid l → Resolves AreValid (resolve_items env l root)
    items-Resolves no_items h = tt
    items-Resolves (item v l) h =
        Resolves-bind IsValid AreValid (resolve_in env v root) _ (in-Resolves v h.0) (λ w g.
          Resolves-bind AreValid AreValid (resolve_items env l root) _ (items-Resolves l h.1)
            (λ out m. (g, m)))

    fields-Resolves : (o : Fields) → IsOrdered o → Resolves (IsCopy o) (resolve_fields env o root)
    fields-Resolves no_fields h = (tt, λ k a. a)
    fields-Resolves (field k v o) (a, hv, h) =
        Resolves-bind IsValid (IsCopy (field k v o)) (resolve_in env v root) _ (in-Resolves v hv)
          (λ w g.
            Resolves-bind (IsCopy o) (IsCopy (field k v o)) (resolve_fields env o root) _
              (fields-Resolves o h) (λ out m. ((m.1 k a, g, m.0), λ j b. (b.0, m.1 j b.1))))

finished-IsAnswer :
    (env : Text → Option Text) (do_include : Text → Parsed) (src : Text) (r : Result Fields)
    → Resolves IsOrdered r
    → IsAnswer do_include src (finished env (bind r (λ out. fine (object out))))
unfolding finished
finished-IsAnswer env do_include src (fine out) h = (out, refl, h)
finished-IsAnswer env do_include src (fault e) (key, same) = rw same (inl tt)

Resolves-weaken : (o : Fields) (r : Result Fields) → Resolves (IsCopy o) r → Resolves IsOrdered r
Resolves-weaken o (fine out) h = h.0
Resolves-weaken o (fault e) h = h

second_pass-IsAnswer :
    (env : Text → Option Text) (do_include : Text → Parsed) (src : Text) (r : Parsed)
    → IsAnswer do_include src r
    → IsAnswer do_include src (second_pass env r)
unfolding second_pass resolve_substitutions resolve_in
second_pass-IsAnswer env do_include src cut_off h = h
second_pass-IsAnswer env do_include src (err e) h = h
second_pass-IsAnswer env do_include src (ok v) (o, same, h) =
    let valid : IsValid (object o) = unfold IsOrdered in h in
    let fields = fields-Resolves env (object o) valid o h in
    rw same (
      finished-IsAnswer env do_include src (resolve_fields env o (object o))
        (Resolves-weaken o (resolve_fields env o (object o)) fields))

-- Where reading a file ends in a value whose keys ascend or in an error, `parse` ends on every
-- document: in an object whose keys ascend at every depth, in an error of an included file, or in an
-- error that names no line or a line of the document.
pub parse-Ends :
    (env : Text → Option Text) (do_include : Text → Parsed) (parse_f64 : Text → Option ℕ)
    → ((path : Text) → Answers (do_include path))
    → (src : Text) → IsAnswer do_include src (parse env do_include parse_f64 src)
unfolding parse
parse-Ends env do_include parse_f64 answers src =
    second_pass-IsAnswer env do_include src (parse_root do_include parse_f64 src)
      (parse_root-Ends do_include parse_f64 answers src)
