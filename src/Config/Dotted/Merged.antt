-- ===== src/Config/Dotted/Merged.antt =====
-- `deep_merge` is the merge of value.rs, and every assignment keeps the keys in order.
use atomr.Base.{◌≡◌, refl, ap, true, Option, none, some, List, [], ◌∷◌, Text}
use atomr.Config.Value.{
  ConfigValue, null, bool, int, float, string, array, object, Items, no_items, item, Fields,
  no_fields, field, get, put, object_of, merge_object, merge_value,
}
use atomr.Config.Value.Entries.{IsValid, AreValid, IsOrdered, put-IsOrdered, get-IsValid}
use atomr.Config.Value.Merge.{merge_object-IsOrdered, merge_value-IsValid}
use atomr.Config.Dotted.{
  deep_merge, deep_value, push, array_at, child_at, append_dotted, insert_dotted,
}

-- `deep_merge` of hocon.rs is `merge_object` of value.rs with the right side winning: the two merges
-- of the crate agree on all objects.
mutual
  unfolding deep_merge merge_object deep_value merge_value

  pub deep_merge-merge_object :
      (into from : Fields) → deep_merge into from ≡ merge_object into from true
  deep_merge-merge_object into no_fields = refl
  deep_merge-merge_object into (field k v from) =
      rw (deep_value-merge_value (get k into) v)
        (deep_merge-merge_object (put k (merge_value (get k into) v true) into) from)

  pub deep_value-merge_value :
      (old : Option ConfigValue) (v : ConfigValue) → deep_value old v ≡ merge_value old v true
  deep_value-merge_value none v = refl
  deep_value-merge_value (some (object a)) (object b) = ap object (deep_merge-merge_object a b)
  deep_value-merge_value (some null) v = refl
  deep_value-merge_value (some (bool b)) v = refl
  deep_value-merge_value (some (int i)) v = refl
  deep_value-merge_value (some (float x)) v = refl
  deep_value-merge_value (some (string s)) v = refl
  deep_value-merge_value (some (array l)) v = refl
  deep_value-merge_value (some (object a)) null = refl
  deep_value-merge_value (some (object a)) (bool b) = refl
  deep_value-merge_value (some (object a)) (int i) = refl
  deep_value-merge_value (some (object a)) (float x) = refl
  deep_value-merge_value (some (object a)) (string s) = refl
  deep_value-merge_value (some (object a)) (array l) = refl

child_at-IsOrdered : (k : Text) (f : Fields) → IsOrdered f → IsOrdered (child_at (get k f))
unfolding child_at object_of IsOrdered
child_at-IsOrdered k f h = of_entry (get k f) (λ v e. get-IsValid k v f h e)
  where
    of_entry :
        (o : Option ConfigValue)
        → ((v : ConfigValue) → o ≡ some v → IsValid v)
        → IsOrdered (child_at o)
    of_entry none h = tt
    of_entry (some (object f)) h = h (object f) refl
    of_entry (some null) h = tt
    of_entry (some (bool b)) h = tt
    of_entry (some (int i)) h = tt
    of_entry (some (float x)) h = tt
    of_entry (some (string s)) h = tt
    of_entry (some (array l)) h = tt

pub insert_dotted-IsOrdered :
    (key : List Text) (f : Fields) (v : ConfigValue)
    → IsOrdered f
    → IsValid v
    → IsOrdered (insert_dotted f key v)
unfolding insert_dotted IsOrdered
insert_dotted-IsOrdered [] f v h w = h
insert_dotted-IsOrdered (k ∷ []) f v h w =
    put-IsOrdered k (deep_value (get k f) v) f
      (rw (deep_value-merge_value (get k f) v)
        (merge_value-IsValid (get k f) v true (λ u e. get-IsValid k u f h e) w))
      h
insert_dotted-IsOrdered (k ∷ next ∷ key) f v h w =
    put-IsOrdered k (object (insert_dotted (child_at (get k f)) (next ∷ key) v)) f
      (insert_dotted-IsOrdered (next ∷ key) (child_at (get k f)) v (child_at-IsOrdered k f h) w) h

array_at-AreValid : (k : Text) (f : Fields) → IsOrdered f → AreValid (array_at (get k f))
unfolding array_at IsOrdered
array_at-AreValid k f h = of_entry (get k f) (λ v e. get-IsValid k v f h e)
  where
    of_entry :
        (o : Option ConfigValue)
        → ((v : ConfigValue) → o ≡ some v → IsValid v)
        → AreValid (array_at o)
    of_entry none h = tt
    of_entry (some null) h = tt
    of_entry (some (bool b)) h = tt
    of_entry (some (int i)) h = tt
    of_entry (some (float x)) h = tt
    of_entry (some (string s)) h = tt
    of_entry (some (array l)) h = h (array l) refl
    of_entry (some (object f)) h = tt

pub push-AreValid : (l : Items) (v : ConfigValue) → AreValid l → IsValid v → AreValid (push l v)
unfolding push AreValid
push-AreValid no_items v h w = (w, tt)
push-AreValid (item u l) v h w = (h.0, push-AreValid l v h.1 w)

pub append_dotted-IsOrdered :
    (key : List Text) (f : Fields) (v : ConfigValue)
    → IsOrdered f
    → IsValid v
    → IsOrdered (append_dotted f key v)
unfolding append_dotted IsOrdered
append_dotted-IsOrdered [] f v h w = h
append_dotted-IsOrdered (k ∷ []) f v h w =
    put-IsOrdered k (array (push (array_at (get k f)) v)) f
      (push-AreValid (array_at (get k f)) v (array_at-AreValid k f h) w) h
append_dotted-IsOrdered (k ∷ next ∷ key) f v h w =
    put-IsOrdered k (object (append_dotted (child_at (get k f)) (next ∷ key) v)) f
      (append_dotted-IsOrdered (next ∷ key) (child_at (get k f)) v (child_at-IsOrdered k f h) w) h

pub deep_merge-IsOrdered :
    (into from : Fields) → IsOrdered into → IsOrdered from → IsOrdered (deep_merge into from)
deep_merge-IsOrdered into from h k =
    rw (deep_merge-merge_object into from) (merge_object-IsOrdered into from true h k)
