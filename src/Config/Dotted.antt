-- ===== src/Config/Dotted.antt =====
-- `deep_merge`, `insert_dotted` and `append_dotted` of hocon.rs.
pub mod Merged
pub mod Paths
use atomr.Base.{Option, none, some, List, [], ◌∷◌, Text, unwrap_or}
use atomr.Config.Value.{
  ConfigValue, array, object, Items, no_items, item, Fields, no_fields, field, get, put, object_of,
}

-- `deep_merge`, and what it makes of one entry of `from` and the value under its key.
unfoldable mutual
  pub deep_merge : Fields → Fields → Fields
  deep_merge into no_fields = into
  deep_merge into (field k v from) = deep_merge (put k (deep_value (get k into) v) into) from

  pub deep_value : Option ConfigValue → ConfigValue → ConfigValue
  deep_value (some (object a)) (object b) = object (deep_merge a b)
  deep_value old v = v

unfoldable pub push : Items → ConfigValue → Items
push no_items value = item value no_items
push (item v items) value = item v (push items value)

-- The array at a leaf, a new one where there is none.
unfoldable pub array_at : Option ConfigValue → Items
array_at (some (array items)) = items
array_at other = no_items

-- The object at a key, a new one where there is none.
unfoldable pub child_at : Option ConfigValue → Fields
child_at entry = unwrap_or (object_of entry) no_fields

unfoldable pub append_dotted : Fields → List Text → ConfigValue → Fields
append_dotted obj [] value = obj
append_dotted obj (k ∷ []) value = put k (array (push (array_at (get k obj)) value)) obj
append_dotted obj (k ∷ next ∷ key) value =
    put k (object (append_dotted (child_at (get k obj)) (next ∷ key) value)) obj

unfoldable pub insert_dotted : Fields → List Text → ConfigValue → Fields
insert_dotted obj [] value = obj
insert_dotted obj (k ∷ []) value = put k (deep_value (get k obj) value) obj
insert_dotted obj (k ∷ next ∷ key) value =
    put k (object (insert_dotted (child_at (get k obj)) (next ∷ key) value)) obj
