-- ===== src/Config/Dotted/Paths.antt =====
-- What stands under each path after an assignment.
use atomr.Base.{
  ◌≡◌, ◌≢◌, refl, inl, inr, ◌⊎◌, Option, none, some, List, [], ◌∷◌, arith, text_beq, text_beq_iff,
  Bool-cases, Option-cases, Text, ap, ◌∙◌, ◌++◌,
}
use atomr.Config.Value.{
  ConfigValue, Items, no_items, item, array, object, Fields, no_fields, get, put, object_of, lookup,
}
use atomr.Config.Value.Entries.{get-put}
use atomr.Config.Dotted.{deep_value, push, array_at, child_at, append_dotted, insert_dotted}

module _ (k : Text) (v : ConfigValue) (f : Fields) where
  get-put_same : get k (put k v f) ≡ some v
  get-put_same = ground (arith, get-put k k v f, text_beq_iff k k)

  get-put_other : (j : Text) → j ≢ k → get j (put k v f) ≡ get j f
  get-put_other j n = ground (arith, get-put j k v f, text_beq_iff j k)

-- Both assignments: a leaf is made of what stood there.
unfoldable put_at : (Option ConfigValue → ConfigValue) → Fields → List Text → Fields
put_at leaf f [] = f
put_at leaf f (k ∷ []) = put k (leaf (get k f)) f
put_at leaf f (k ∷ next ∷ key) = put k (object (put_at leaf (child_at (get k f)) (next ∷ key))) f

insert_dotted-put_at :
    (f : Fields) (key : List Text) (v : ConfigValue)
    → insert_dotted f key v ≡ put_at (λ old. deep_value old v) f key
unfolding insert_dotted put_at
insert_dotted-put_at f [] v = refl
insert_dotted-put_at f (k ∷ []) v = refl
insert_dotted-put_at f (k ∷ next ∷ key) v =
    rw (insert_dotted-put_at (child_at (get k f)) (next ∷ key) v) refl

append_dotted-put_at :
    (f : Fields) (key : List Text) (v : ConfigValue)
    → append_dotted f key v ≡ put_at (λ old. array (push (array_at old) v)) f key
unfolding append_dotted put_at
append_dotted-put_at f [] v = refl
append_dotted-put_at f (k ∷ []) v = refl
append_dotted-put_at f (k ∷ next ∷ key) v =
    rw (append_dotted-put_at (child_at (get k f)) (next ∷ key) v) refl

lookup-child_at :
    (k next : Text) (key : List Text) (f : Fields)
    → lookup f (k ∷ next ∷ key) ≡ lookup (child_at (get k f)) (next ∷ key)
unfolding lookup child_at
lookup-child_at k next key f = elim (Option-cases (object_of (get k f))) [
  | inl e ↦ rw (e, lookup, child_at) (nothing key)
  | inr (o, e) ↦ rw (e, lookup, child_at) refl
]
  where
    nothing : (key : List Text) → ◌≡◌ {A = Option ConfigValue} none (lookup no_fields (next ∷ key))
    nothing [] = unfold get in refl
    nothing (k' ∷ key') = unfold get object_of in refl

lookup_ext :
    (j : Text) (path : List Text) (f g : Fields)
    → get j f ≡ get j g
    → lookup f (j ∷ path) ≡ lookup g (j ∷ path)
unfolding lookup
lookup_ext j [] f g e = e
lookup_ext j (next ∷ path) f g e = rw (e, lookup) refl

child_at-object : (o : Fields) → child_at (some (object o)) ≡ o
unfolding child_at object_of
child_at-object o = refl

-- The paths part at some segment: neither is a prefix of the other.
unfoldable pub Apart : List Text → List Text → Type 0
Apart [] other = ⊥
Apart (k ∷ key) [] = ⊥
Apart (k ∷ key) (j ∷ other) = (j ≢ k) ⊎ Apart key other

module _ (leaf : Option ConfigValue → ConfigValue) where
  lookup-put_at :
      (k : Text) (key : List Text) (f : Fields)
      → lookup (put_at leaf f (k ∷ key)) (k ∷ key) ≡ some (leaf (lookup f (k ∷ key)))
  unfolding put_at
  lookup-put_at k [] f = unfold lookup in get-put_same k (leaf (get k f)) f
  lookup-put_at k (next ∷ key) f =
      let inner = put_at leaf (child_at (get k f)) (next ∷ key) in
      let now = get-put_same k (object inner) f in
      rw (lookup-child_at k next key (put k (object inner) f), lookup-child_at k next key f, now)
        (rw (child_at-object inner) (lookup-put_at next key (child_at (get k f))))

  put_at-Apart :
      (key other : List Text) (f : Fields)
      → Apart key other
      → lookup (put_at leaf f key) other ≡ lookup f other
  unfolding put_at Apart
  put_at-Apart [] other f h = absurd h
  put_at-Apart (k ∷ []) [] f h = absurd h
  put_at-Apart (k ∷ []) (j ∷ other) f (inl n) =
      lookup_ext j other (put k (leaf (get k f)) f) f (get-put_other k (leaf (get k f)) f j n)
  put_at-Apart (k ∷ []) (j ∷ other) f (inr h) = absurd h
  put_at-Apart (k ∷ next ∷ key) [] f h = absurd h
  put_at-Apart (k ∷ next ∷ key) (j ∷ other) f (inl n) =
      let inner = put_at leaf (child_at (get k f)) (next ∷ key) in
      lookup_ext j other (put k (object inner) f) f (get-put_other k (object inner) f j n)
  put_at-Apart (k ∷ next ∷ key) (j ∷ []) f (inr h) = absurd h
  put_at-Apart (k ∷ next ∷ key) (j ∷ o ∷ other) f (inr h) =
      let inner = put_at leaf (child_at (get k f)) (next ∷ key) in
      let deeper = put_at-Apart (next ∷ key) (o ∷ other) (child_at (get k f)) h in
      elim (Bool-cases (text_beq j k)) [
        | inl e ↦
            let same : j ≡ k = (text_beq_iff j k).0 e in
            let now = get-put_same k (object inner) f in
            rw
              (
                same,
                lookup-child_at k o other (put k (object inner) f),
                lookup-child_at k o other f,
                now,
                child_at-object inner,
              )
              deeper
        | inr e ↦
            let n : j ≢ k = λ p. ground (arith, text_beq_iff j k) in
            lookup_ext j (o ∷ other) (put k (object inner) f) f
              (get-put_other k (object inner) f j n)
      ]

-- Under the assigned path stands the value, merged into what stood there where both are objects,
-- whatever scalars stood on the way.
pub lookup-insert_dotted :
    (k : Text) (key : List Text) (f : Fields) (v : ConfigValue)
    → lookup (insert_dotted f (k ∷ key) v) (k ∷ key) ≡ some (deep_value (lookup f (k ∷ key)) v)
lookup-insert_dotted k key f v =
    rw (insert_dotted-put_at f (k ∷ key) v) (lookup-put_at (λ old. deep_value old v) k key f)

abbrev pub values : Items → List ConfigValue
values no_items = []
values (item v items) = v ∷ values items

-- The values of the array that stands under a path, if one does.
abbrev pub array_under : Option ConfigValue → List ConfigValue
array_under (some (array items)) = values items
array_under other = []

values-push : (items : Items) (v : ConfigValue) → values (push items v) ≡ values items ++ v ∷ []
unfolding push
values-push no_items v = refl
values-push (item w items) v = ap (λ l. w ∷ l) (values-push items v)

values-array_at : (old : Option ConfigValue) → values (array_at old) ≡ array_under old
unfolding array_at
values-array_at none = refl
values-array_at (some (array items)) = refl
values-array_at (some (object f)) = refl
values-array_at (some _) = refl

-- Every assignment leaves a path alone that parts from its own. After `+=` its path holds an array: the
-- values of the array that stood there before, none if there was no array, and then the new value.
pub append_dotted_lem :
    (k : Text) (key other : List Text) (f : Fields) (v : ConfigValue)
    → Apart (k ∷ key) other
    → ((items : Items) × (lookup (append_dotted f (k ∷ key) v) (k ∷ key) ≡ some (array items))
        × (values items ≡ array_under (lookup f (k ∷ key)) ++ v ∷ []))
      × (lookup (append_dotted f (k ∷ key) v) other ≡ lookup f other)
      × (lookup (insert_dotted f (k ∷ key) v) other ≡ lookup f other)
append_dotted_lem k key other f v h =
    let old = array_at (lookup f (k ∷ key)) in
    (
      (
        push old v,
        rw (append_dotted-put_at f (k ∷ key) v)
            (lookup-put_at (λ o. array (push (array_at o) v)) k key f),
        values-push old v ∙ ap (λ l. l ++ v ∷ []) (values-array_at (lookup f (k ∷ key))),
      ),
      rw (append_dotted-put_at f (k ∷ key) v)
          (put_at-Apart (λ o. array (push (array_at o) v)) (k ∷ key) other f h),
      rw (insert_dotted-put_at f (k ∷ key) v)
          (put_at-Apart (λ old. deep_value old v) (k ∷ key) other f h),
    )
