-- ===== src/Config/Value.antt =====
-- crates/atomr-config/src/value.rs: `ConfigValue`, and the `BTreeMap` of an object with its `get` and
-- `insert`. A `Float` is the pattern of its 64 bits.
pub mod Entries
pub mod Merge
pub mod Layers
use atomr.Base.{
  ℕ, Bool, Option, none, some, List, [], ◌∷◌, text_beq, text_leb, if◌then◌else◌, Text, ℤ,
}

mutual
  pub data ConfigValue : Type 0 where
    null : ConfigValue
    bool : Bool → ConfigValue
    int : ℤ → ConfigValue
    float : ℕ → ConfigValue
    string : Text → ConfigValue
    array : Items → ConfigValue
    object : Fields → ConfigValue

  -- `Vec<ConfigValue>`
  pub data Items : Type 0 where
    no_items : Items
    item : ConfigValue → Items → Items

  -- `BTreeMap<String, ConfigValue>`
  pub data Fields : Type 0 where
    no_fields : Fields
    field : Text → ConfigValue → Fields → Fields

unfoldable pub get : Text → Fields → Option ConfigValue
get k no_fields = none
get k (field j w fields) = if text_beq k j then some w else get k fields

-- `insert`
unfoldable pub put : Text → ConfigValue → Fields → Fields
put k v no_fields = field k v no_fields
put k v (field j w fields) =
    let rest = put k v fields in
    if text_beq k j
    then field j v fields
    else if text_leb k j
    then field k v (field j w fields)
    else field j w rest

-- The pattern `Some(ConfigValue::Object(o))`.
unfoldable pub object_of : Option ConfigValue → Option Fields
object_of (some (object o)) = some o
object_of other = none

-- `lookup`, along the segments of a path.
unfoldable pub lookup : Fields → List Text → Option ConfigValue
lookup root [] = none
lookup root (head ∷ []) = get head root
lookup root (head ∷ next ∷ tail) = elim (object_of (get head root)) [
  | some o ↦ lookup o (next ∷ tail)
  | none ↦ none
]

-- `merge_object`, and what it makes of one entry of `src` and the value under its key.
unfoldable mutual
  pub merge_object : Fields → Fields → Bool → Fields
  merge_object dst no_fields override_rhs = dst
  merge_object dst (field k v src) override_rhs =
      merge_object (put k (merge_value (get k dst) v override_rhs) dst) src override_rhs

  pub merge_value : Option ConfigValue → ConfigValue → Bool → ConfigValue
  merge_value none v override_rhs = v
  merge_value (some (object inner)) (object src_inner) override_rhs =
      object (merge_object inner src_inner override_rhs)
  merge_value (some kept) v override_rhs = if override_rhs then v else kept

-- `Config` is its root.
pub record Config : Type 0 where
  pub root : Fields

unfoldable pub empty : Config
empty = record { root = no_fields }

unfoldable pub with_fallback : Config → Config → Config
with_fallback self fallback = record { root = merge_object self.root fallback.root Bool.false }

unfoldable pub merged_with : Config → Config → Config
merged_with self other = record { root = merge_object self.root other.root Bool.true }
