-- ===== src/Config/Resolve/Verbatim.antt =====
-- What a placeholder becomes.
use atomr.Base.{◌≡◌, refl, inl, inr, Option, some, [], ◌∷◌, ◌++◌, arith, text_beq, Bool-cases, Text}
use atomr.Config.Value.{ConfigValue, string, object, Fields, no_fields, field, get}
use atomr.Config.Resolve.{
  Result, fine, fault, bind, strip_prefix, lookup_path, strict_marker, strict, resolve_text,
  resolve_in, resolve_fields, resolve_substitutions,
}

strip_prefix-append : (prefix s : Text) → strip_prefix prefix (prefix ++ s) ≡ some s
unfolding strip_prefix
strip_prefix-append [] s = refl
strip_prefix-append (c ∷ prefix) s = ground (arith, strip_prefix-append prefix s)

module _ (env : Text → Option Text) where
  bind-eq-fine :
      {A B : Type 0} (r : Result A) (f : A → Result B) (b : B)
      → bind r f ≡ fine b
      → (a : A) × (r ≡ fine a) × (f a ≡ fine b)
  bind-eq-fine (fine a) f b h = (a, refl, h)
  bind-eq-fine (fault e) f b h = absurd (cc h)

  -- Each entry of the result is the entry of the document, resolved.
  get-resolve_fields :
      (o out : Fields) (root : ConfigValue) (k : Text) (v : ConfigValue)
      → resolve_fields env o root ≡ fine out
      → get k o ≡ some v
      → (w : ConfigValue) × (resolve_in env v root ≡ fine w) × (get k out ≡ some w)
  unfolding resolve_fields get
  get-resolve_fields no_fields out root k v h e = absurd (cc e)
  get-resolve_fields (field j u o) out root k v h e =
      let (w, here, more) = bind-eq-fine (resolve_in env u root) _ out h in
      let (rest, there, done) = bind-eq-fine (resolve_fields env o root) _ out more in
      let whole : out ≡ field j w rest = cc done in
      elim (Bool-cases (text_beq k j)) [
        | inl t ↦ let same : u ≡ v = ground arith in (w, cc (here, same), ground (arith, whole))
        | inr t ↦
            let (x, at, got) = get-resolve_fields o rest root k v there (ground arith) in
            (x, at, ground (arith, whole, got))
      ]

  strict_text :
      (s path : Text) (root v : ConfigValue)
      → strip_prefix strict_marker s ≡ some path
      → lookup_path root path ≡ some v
      → resolve_text env s root ≡ fine v
  unfolding resolve_text strict
  strict_text s path root v e at = rw (e, resolve_text, at) refl

  -- Where the document resolves, a key with the placeholder of `${path}` gets what stands under the
  -- path in the document as it was parsed: the value is not resolved in its turn.
  pub resolve_verbatim :
      (o out : Fields) (k path : Text) (v : ConfigValue)
      → resolve_substitutions env (object o) ≡ fine (object out)
      → get k o ≡ some (string (strict_marker ++ path))
      → lookup_path (object o) path ≡ some v
      → get k out ≡ some v
  unfolding resolve_substitutions resolve_in
  resolve_verbatim o out k path v h e at =
      let (f, fields, whole) = bind-eq-fine (resolve_fields env o (object o)) _ (object out) h in
      let same : f ≡ out = cc whole in
      let (w, here, got) =
        get-resolve_fields o f (object o) k (string (strict_marker ++ path)) fields e in
      let text : resolve_text env (strict_marker ++ path) (object o) ≡ fine v =
        strict_text (strict_marker ++ path) path (object o) v
          (strip_prefix-append strict_marker path) at in
      cc (got, here, text, same)
