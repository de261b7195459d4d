-- ===== src/Config/Value/Merge.antt =====
-- `merge_object` entry by entry.
use atomr.Base.{
  ◌≡◌, refl, inl, inr, ◌⊎◌, Bool, true, false, Option, none, some, text_beq, text_beq_iff,
  if◌then◌else◌, Bool-cases, Text,
}
use atomr.Config.Value.{
  ConfigValue, null, bool, int, float, string, array, object, Fields, no_fields, field, get, put,
  merge_object, merge_value,
}
use atomr.Config.Value.Entries.{get-put, get-Above, IsValid, IsOrdered, put-IsOrdered, get-IsValid}

-- The value under a key that one side or both have.
abbrev pub both : Option ConfigValue → Option ConfigValue → Bool → Option ConfigValue
both old none override_rhs = old
both old (some v) override_rhs = some (merge_value old v override_rhs)

pub get-merge_object :
    (k : Text) (dst src : Fields) (o : Bool)
    → IsOrdered src
    → get k (merge_object dst src o) ≡ both (get k dst) (get k src) o
unfolding merge_object get IsOrdered
get-merge_object k dst no_fields o h = refl
get-merge_object k dst (field j v src) o (a, hv, h) =
    let rest = get-merge_object k (put j (merge_value (get j dst) v o) dst) src o h in
    let here = get-put k j (merge_value (get j dst) v o) dst in
    elim (Bool-cases (text_beq k j)) [
      | inl e ↦
          let same : k ≡ j = (text_beq_iff k j).0 e in
          let absent : get k src ≡ none = get-Above k src (rw same a) in
          rw (rest, here, e, absent) (rw same refl)
      | inr e ↦ rw (rest, here, e) refl
    ]

-- Two objects are merged; of any other two values one stays.
pub merge_value-cases :
    (w v : ConfigValue) (o : Bool)
    → ((f : Fields) × (g : Fields) × (w ≡ object f) × (v ≡ object g))
      ⊎ (merge_value (some w) v o ≡ (if o then v else w))
unfolding merge_value
merge_value-cases null v o = inr refl
merge_value-cases (bool b) v o = inr refl
merge_value-cases (int i) v o = inr refl
merge_value-cases (float x) v o = inr refl
merge_value-cases (string s) v o = inr refl
merge_value-cases (array l) v o = inr refl
merge_value-cases (object f) null o = inr refl
merge_value-cases (object f) (bool b) o = inr refl
merge_value-cases (object f) (int i) o = inr refl
merge_value-cases (object f) (float x) o = inr refl
merge_value-cases (object f) (string s) o = inr refl
merge_value-cases (object f) (array l) o = inr refl
merge_value-cases (object f) (object g) o = inl (f, g, refl, refl)

-- A merge of valid objects is one.
mutual
  unfolding merge_object merge_value IsOrdered

  pub merge_object-IsOrdered :
      (dst src : Fields) (o : Bool)
      → IsOrdered dst
      → IsOrdered src
      → IsOrdered (merge_object dst src o)
  merge_object-IsOrdered dst no_fields o d s = d
  merge_object-IsOrdered dst (field k v src) o d (a, hv, s) =
      merge_object-IsOrdered (put k (merge_value (get k dst) v o) dst) src o
        (put-IsOrdered k (merge_value (get k dst) v o) dst
          (merge_value-IsValid (get k dst) v o (λ w e. get-IsValid k w dst d e) hv) d)
        s

  pub merge_value-IsValid :
      (old : Option ConfigValue) (v : ConfigValue) (o : Bool)
      → ((w : ConfigValue) → old ≡ some w → IsValid w)
      → IsValid v
      → IsValid (merge_value old v o)
  merge_value-IsValid none v o d h = h
  merge_value-IsValid (some (object f)) (object g) o d h =
      merge_object-IsOrdered f g o (d (object f) refl) h
  merge_value-IsValid (some null) v true d h = h
  merge_value-IsValid (some null) v false d h = d null refl
  merge_value-IsValid (some (bool b)) v true d h = h
  merge_value-IsValid (some (bool b)) v false d h = d (bool b) refl
  merge_value-IsValid (some (int i)) v true d h = h
  merge_value-IsValid (some (int i)) v false d h = d (int i) refl
  merge_value-IsValid (some (float x)) v true d h = h
  merge_value-IsValid (some (float x)) v false d h = d (float x) refl
  merge_value-IsValid (some (string s)) v true d h = h
  merge_value-IsValid (some (string s)) v false d h = d (string s) refl
  merge_value-IsValid (some (array l)) v true d h = h
  merge_value-IsValid (some (array l)) v false d h = d (array l) refl
  merge_value-IsValid (some (object f)) null true d h = h
  merge_value-IsValid (some (object f)) null false d h = d (object f) refl
  merge_value-IsValid (some (object f)) (bool b) true d h = h
  merge_value-IsValid (some (object f)) (bool b) false d h = d (object f) refl
  merge_value-IsValid (some (object f)) (int i) true d h = h
  merge_value-IsValid (some (object f)) (int i) false d h = d (object f) refl
  merge_value-IsValid (some (object f)) (float x) true d h = h
  merge_value-IsValid (some (object f)) (float x) false d h = d (object f) refl
  merge_value-IsValid (some (object f)) (string s) true d h = h
  merge_value-IsValid (some (object f)) (string s) false d h = d (object f) refl
  merge_value-IsValid (some (object f)) (array l) true d h = h
  merge_value-IsValid (some (object f)) (array l) false d h = d (object f) refl
