-- ===== src/Config/Value/Layers.antt =====
-- `with_fallback` and `merged_with` as layers of one configuration.
use atomr.Base.{
  ◌≡◌, refl, ap, subst, inl, inr, ◌⊎◌, true, false, Option, none, some, List, [], ◌∷◌, arith,
  text_beq, Bool-cases, Option-cases, Text,
}
use atomr.Config.Value.{
  ConfigValue, null, bool, int, float, string, array, object, Fields, no_fields, field, get,
  object_of, lookup, merge_object, merge_value, Config, with_fallback, merged_with,
}
use atomr.Config.Value.Entries.{IsValid, IsOrdered, get-IsValid, get_ext}
use atomr.Config.Value.Merge.{both, get-merge_object, merge_value-cases, merge_object-IsOrdered}

-- An object, not a scalar or an array.
abbrev pub IsObject : ConfigValue → Type 0
IsObject v = (f : Fields) × (v ≡ object f)

keeps : (a v : ConfigValue) → ¬ (IsObject a × IsObject v) → merge_value (some a) v false ≡ a
keeps a v n = elim (merge_value-cases a v false) [
  | inl (f, g, p, q) ↦ absurd (n ((f, p), (g, q)))
  | inr e ↦ e
]

takes : (a v : ConfigValue) → ¬ (IsObject a × IsObject v) → merge_value (some v) a true ≡ a
takes a v n = elim (merge_value-cases v a true) [
  | inl (f, g, p, q) ↦ absurd (n ((g, q), (f, p)))
  | inr e ↦ e
]

-- What `v` as a fallback makes of `a` is what `a` makes of `v` as the layer that wins.
abbrev IsDual : ConfigValue → Type 0
IsDual v =
    (a : ConfigValue)
    → IsValid a
    → IsValid v
    → merge_value (some a) v false ≡ merge_value (some v) a true

both-dual :
    (p q : Option ConfigValue)
    → ((a v : ConfigValue)
        → p ≡ some a
        → q ≡ some v
        → merge_value (some a) v false ≡ merge_value (some v) a true)
    → both p q false ≡ both q p true
unfolding merge_value
both-dual none none h = refl
both-dual none (some v) h = refl
both-dual (some a) none h = refl
both-dual (some a) (some v) h = ap some (h a v refl refl)

objects-dual :
    (f g : Fields)
    → IsOrdered f
    → IsOrdered g
    → ((k : Text) (v : ConfigValue) → get k g ≡ some v → IsDual v)
    → merge_object f g false ≡ merge_object g f true
objects-dual f g p q h =
    get_ext (merge_object f g false) (merge_object g f true) (merge_object-IsOrdered f g false p q)
      (merge_object-IsOrdered g f true q p)
      (λ k.
        rw (get-merge_object k f g false q, get-merge_object k g f true p)
          (both-dual (get k f) (get k g)
            (λ a v ea ev. h k v ev a (get-IsValid k a f p ea) (get-IsValid k v g q ev))))

mutual
  unfolding merge_value get IsOrdered

  value-IsDual : (v : ConfigValue) → IsDual v
  value-IsDual (object g) (object f) p q = ap object (objects-dual f g p q (fields-IsDual g))
  value-IsDual null a p h = keeps a null (λ n. cc (n.1.1))
  value-IsDual (bool b) a p h = keeps a (bool b) (λ n. cc (n.1.1))
  value-IsDual (int i) a p h = keeps a (int i) (λ n. cc (n.1.1))
  value-IsDual (float x) a p h = keeps a (float x) (λ n. cc (n.1.1))
  value-IsDual (string s) a p h = keeps a (string s) (λ n. cc (n.1.1))
  value-IsDual (array l) a p h = keeps a (array l) (λ n. cc (n.1.1))
  value-IsDual (object g) null p h = refl
  value-IsDual (object g) (bool b) p h = refl
  value-IsDual (object g) (int i) p h = refl
  value-IsDual (object g) (float x) p h = refl
  value-IsDual (object g) (string s) p h = refl
  value-IsDual (object g) (array l) p h = refl

  fields-IsDual : (g : Fields) (k : Text) (v : ConfigValue) → get k g ≡ some v → IsDual v
  fields-IsDual no_fields k v e = absurd (cc e)
  fields-IsDual (field j w g) k v e = elim (Bool-cases (text_beq k j)) [
    | inl t ↦ let same : w ≡ v = ground arith in subst IsDual same (value-IsDual w)
    | inr t ↦ fields-IsDual g k v (ground arith)
  ]

-- On objects whose keys ascend, `a` with the fallback `b` is `b` merged with `a`: the two operations
-- are one, with the layers exchanged.
pub with_fallback-merged_with :
    (a b : Config) → IsOrdered a.root → IsOrdered b.root → with_fallback a b ≡ merged_with b a
unfolding with_fallback merged_with
with_fallback-merged_with a b p q =
    let same = objects-dual a.root b.root p q (fields-IsDual b.root) in
    ap (λ r. record { root = r }) same

kept :
    (p q : Option ConfigValue) (v : ConfigValue)
    → p ≡ some v
    → ¬ IsObject v
    → both p q false ≡ some v
kept none q v e n = absurd (cc e)
kept (some a) none v e n = e
kept (some a) (some w) v e n = let same : a ≡ v = cc e in rw same (ap some (keeps v w (λ h. n h.0)))

object_of-eq : (p : Option ConfigValue) (f : Fields) → object_of p ≡ some f → p ≡ some (object f)
unfolding object_of
object_of-eq none f e = absurd (cc e)
object_of-eq (some (object g)) f e = cc e
object_of-eq (some null) f e = absurd (cc e)
object_of-eq (some (bool b)) f e = absurd (cc e)
object_of-eq (some (int i)) f e = absurd (cc e)
object_of-eq (some (float x)) f e = absurd (cc e)
object_of-eq (some (string s)) f e = absurd (cc e)
object_of-eq (some (array l)) f e = absurd (cc e)

-- An object of the first layer is still one.
object_kept :
    (q : Option ConfigValue) (f : Fields)
    → ((g : Fields) × (q ≡ some (object g))
        × (both (some (object f)) q false ≡ some (object (merge_object f g false))))
      ⊎ (both (some (object f)) q false ≡ some (object f))
unfolding merge_value
object_kept none f = inr refl
object_kept (some (object g)) f = inl (g, refl, refl)
object_kept (some null) f = inr refl
object_kept (some (bool b)) f = inr refl
object_kept (some (int i)) f = inr refl
object_kept (some (float x)) f = inr refl
object_kept (some (string s)) f = inr refl
object_kept (some (array l)) f = inr refl

descend :
    (k next : Text) (path : List Text) (f o : Fields) (v : ConfigValue)
    → get k f ≡ some (object o)
    → lookup o (next ∷ path) ≡ some v
    → lookup f (k ∷ next ∷ path) ≡ some v
unfolding lookup object_of
descend k next path f o v e h = rw (e, lookup, object_of) h

lookup_kept :
    (path : List Text) (f g : Fields) (v : ConfigValue)
    → IsOrdered g
    → lookup f path ≡ some v
    → ¬ IsObject v
    → lookup (merge_object f g false) path ≡ some v
unfolding lookup object_of IsOrdered
lookup_kept [] f g v q e n = absurd (cc e)
lookup_kept (k ∷ []) f g v q e n =
    rw (get-merge_object k f g false q) (kept (get k f) (get k g) v e n)
lookup_kept (k ∷ next ∷ path) f g v q e n = elim (Option-cases (object_of (get k f))) [
  | inl o ↦ absurd (ground arith)
  | inr (f', o) ↦
      let at : get k f ≡ some (object f') = object_of-eq (get k f) f' o in
      let within : lookup f' (next ∷ path) ≡ some v = ground arith in
      let now = get-merge_object k f g false q in
      elim (object_kept (get k g) f') [
        | inl (g', there, merged) ↦
            let h : IsOrdered g' = get-IsValid k (object g') g q there in
            let here : get k (merge_object f g false) ≡ some (object (merge_object f' g' false)) =
              cc (now, at, merged) in
            descend k next path _ _ v here (lookup_kept (next ∷ path) f' g' v h within n)
        | inr merged ↦
            let here : get k (merge_object f g false) ≡ some (object f') = cc (now, at, merged) in
            descend k next path _ _ v here within
      ]
]

-- A value of `a` that is no object stays under its path, whatever the fallback has.
pub lookup-with_fallback :
    (path : List Text) (a b : Config) (v : ConfigValue)
    → IsOrdered b.root
    → lookup a.root path ≡ some v
    → ¬ IsObject v
    → lookup (with_fallback a b).root path ≡ some v
unfolding with_fallback
lookup-with_fallback path a b v q e n = lookup_kept path a.root b.root v q e n
