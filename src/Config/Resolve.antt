-- ===== src/Config/Resolve.antt =====
-- The second pass of hocon.rs, over the placeholders, and `parse`. The environment is a parameter.
pub mod Verbatim
pub mod Answer
use atomr.Base.{
  ℕ, Bool, true, false, Option, none, some, List, [], ◌∷◌, ◌++◌, nat_beq, if◌then◌else◌, Text,
  codes,
}
use atomr.Config.Value.{
  ConfigValue, null, bool, int, float, string, array, object, Items, no_items, item, Fields,
  no_fields, field, get,
}
use atomr.Config.Cursor.{HoconError, missing_substitution}
use atomr.Config.Hocon.{Parsed, ok, err, cut_off, parse_root}

-- `Result<T, HoconError>`
pub data Result (A : Type 0) : Type 0 where
  fine : A → Result A
  fault : HoconError → Result A

abbrev pub bind : {A B : Type 0} → Result A → (A → Result B) → Result B
bind (fine a) f = f a
bind (fault e) f = fault e

unfoldable pub strip_prefix : Text → Text → Option Text
strip_prefix [] s = some s
strip_prefix (c ∷ prefix) [] = none
strip_prefix (c ∷ prefix) (d ∷ s) = if nat_beq c d then strip_prefix prefix s else none

-- `path.split('.')`, with the segment under way.
unfoldable pub split_dots : (segment : Text) → Text → List Text
split_dots segment [] = segment ∷ []
split_dots segment (c ∷ s) =
    let next = split_dots [] s in
    let on = split_dots (segment ++ c ∷ []) s in
    elim (nat_beq c b'.') [ true ↦ segment ∷ next | false ↦ on ]

unfoldable pub lookup_segments : ConfigValue → List Text → Option ConfigValue
lookup_segments cur [] = some cur
lookup_segments (object o) (seg ∷ segs) = elim (get seg o) [
  | none ↦ none
  | some next ↦ lookup_segments next segs
]
lookup_segments other (seg ∷ segs) = none

unfoldable pub lookup_path : ConfigValue → Text → Option ConfigValue
lookup_path root path = lookup_segments root (split_dots [] path)

abbrev pub strict_marker : Text
strict_marker = codes "__atomr_sub::"

abbrev pub optional_marker : Text
optional_marker = codes "__atomr_sub_opt::"

module _ (env : Text → Option Text) where
  unfoldable pub strict : Text → Option ConfigValue → Result ConfigValue
  strict rest (some v) = fine v
  strict rest none = fault (missing_substitution rest)

  unfoldable pub optional : Option Text → ConfigValue
  optional (some s) = string s
  optional none = null

  unfoldable pub resolve_text : Text → ConfigValue → Result ConfigValue
  resolve_text s root = elim (strip_prefix strict_marker s) [
    | some rest ↦ strict rest (lookup_path root rest)
    | none ↦ elim (strip_prefix optional_marker s) [
      | some rest ↦ fine (optional (env rest))
      | none ↦ fine (string s)
    ]
  ]

  unfoldable mutual
    pub resolve_in : ConfigValue → ConfigValue → Result ConfigValue
    resolve_in null root = fine null
    resolve_in (bool b) root = fine (bool b)
    resolve_in (int i) root = fine (int i)
    resolve_in (float x) root = fine (float x)
    resolve_in (string s) root = resolve_text s root
    resolve_in (array items) root = bind (resolve_items items root) (λ out. fine (array out))
    resolve_in (object o) root = bind (resolve_fields o root) (λ out. fine (object out))

    pub resolve_items : Items → ConfigValue → Result Items
    resolve_items no_items root = fine no_items
    resolve_items (item v items) root =
        bind (resolve_in v root) (λ w. bind (resolve_items items root) (λ out. fine (item w out)))

    -- The keys come in order, so that each goes to the end of `out`.
    pub resolve_fields : Fields → ConfigValue → Result Fields
    resolve_fields no_fields root = fine no_fields
    resolve_fields (field k v o) root =
        bind (resolve_in v root) (λ w. bind (resolve_fields o root) (λ out. fine (field k w out)))

  unfoldable pub resolve_substitutions : ConfigValue → Result ConfigValue
  resolve_substitutions v = resolve_in v v

  unfoldable pub finished : Result ConfigValue → Parsed
  finished (fine v) = ok v
  finished (fault e) = err e

  -- What follows `parse_root`.
  unfoldable pub second_pass : Parsed → Parsed
  second_pass (ok root) = finished (resolve_substitutions root)
  second_pass (err e) = err e
  second_pass cut_off = cut_off

  unfoldable pub parse : (Text → Parsed) → (Text → Option ℕ) → Text → Parsed
  parse do_include parse_f64 text = second_pass (parse_root do_include parse_f64 text)
