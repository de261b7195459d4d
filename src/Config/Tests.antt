-- ===== src/Config/Tests.antt =====
-- Runs of the parser and of the merges, and an instance of each theorem.
use atomr.Base.{
  ◌↔◌, ℕ, ◌≡◌, ◌+◌, refl, inl, inr, true, false, Option, none, some, [], ◌∷◌, ◌++◌, length, Text,
  codes, text_beq, text_beq_iff, suc, pos, text_leb, parse_uint, parse_digits, valid_from, trim,
  trim_start, space_at, reverse,
}
use atomr.Config.Value.{
  Items, null, int, string, array, object, no_items, item, Fields, no_fields, field, get, put,
  object_of, lookup, Config, with_fallback, merged_with,
}
use atomr.Config.Value.Entries.{IsOrdered}
use atomr.Config.Value.Layers.{IsObject, with_fallback-merged_with}
use atomr.Config.Cursor.{
  HoconError, io, missing_substitution, expected, unterminated, unexpected, Parser, Run, done,
  failed, peek_at, is_byte, char, found, starts_with, starts_with_keyword, advance, skip_while,
  slice, skip_ws_inline, skips, skip, skip_ws_and_comments,
}
use atomr.Config.Cursor
use atomr.Config.Scalar.{parse_i64, scalar_from_str}
use atomr.Config.Strings.{
  unescape, quoted, triple_quoted, parse_string, bare_part, key_part, key_parts, parse_key, path_of,
  parse_substitution,
}
use atomr.Config.Strings.Quotes.{escaped, high, parse_string-quotes}
use atomr.Config.Dotted.{deep_merge, push, array_at, child_at, append_dotted, insert_dotted}
use atomr.Config.Dotted.Paths.{Apart, append_dotted_lem, values, array_under}
use atomr.Config.Hocon.{
  Parsed, ok, err, in_scalar, scalar_or_error, parse_unquoted_scalar, included, parse_include,
  assigned, parse_value, at_end, parsed_root, enough, parse_root,
}
use atomr.Config.Hocon.Parts.{Answers}
use atomr.Config.Hocon.Root.{IsAnswer}
use atomr.Config.Resolve.{
  fine, strip_prefix, split_dots, lookup_segments, lookup_path, strict_marker, strict, resolve_text,
  resolve_in, resolve_substitutions, finished, second_pass, parse,
}
use atomr.Config.Resolve.Answer.{parse-Ends}
use atomr.Config.Resolve.Verbatim.{resolve_verbatim}

abbrev no_files : Text → Parsed
no_files path = err (io path [])

abbrev no_floats : Text → Option ℕ
no_floats s = none

abbrev no_env : Text → Option Text
no_env name = none

parse_runs :
    parse no_env no_files no_floats (codes "a.b = 1 # one\nlist = [x, \"y\"]\n c { d = ${a.b} }")
    ≡ ok (
        object (
          field (codes "a") (object (field (codes "b") (int (pos 1)) no_fields)) (
            field (codes "c") (object (field (codes "d") (int (pos 1)) no_fields)) (
              field
                (codes "list")
                (array (item (string (codes "x")) (item (string (codes "y")) no_items)))
                no_fields))))
unfolding parse second_pass finished resolve_substitutions resolve_in resolve_text strict
    lookup_path lookup_segments split_dots strip_prefix parse_root parsed_root at_end enough
    parse_value assigned append_dotted insert_dotted deep_merge push array_at child_at get put
    object_of included parse_include parse_unquoted_scalar scalar_or_error in_scalar scalar_from_str
    parse_i64 trim trim_start space_at reverse parse_substitution path_of parse_key key_parts
    key_part bare_part parse_string quoted triple_quoted unescape Cursor.new peek_at char found
    starts_with starts_with_keyword advance skip_while slice skip_ws_inline skips skip
    skip_ws_and_comments text_beq text_leb parse_uint parse_digits valid_from
parse_runs = refl

no_files-Answers : (path : Text) → Answers (no_files path)
unfolding Answers
no_files-Answers path = tt

parse-Ends_example :
    IsAnswer no_files
      (codes "a {\n b = 1\n")
      (parse no_env no_files no_floats (codes "a {\n b = 1\n"))
parse-Ends_example = parse-Ends no_env no_files no_floats no_files-Answers (codes "a {\n b = 1\n")

-- The object has no end, which is seen on the third line.
unterminated_runs :
    parse no_env no_files no_floats (codes "a {\n b = 1\n") ≡ err (unterminated (codes "object") 3)
unfolding parse second_pass parse_root parsed_root enough parse_value assigned append_dotted
    insert_dotted deep_merge array_at child_at get put object_of parse_unquoted_scalar
    scalar_or_error in_scalar scalar_from_str parse_i64 trim trim_start space_at reverse parse_key
    key_parts key_part bare_part Cursor.new peek_at starts_with starts_with_keyword advance
    skip_while slice skip_ws_inline skips skip skip_ws_and_comments text_beq text_leb parse_uint
    parse_digits valid_from
unterminated_runs = refl

abbrev key_a : Text
key_a = codes "a"

abbrev key_b : Text
key_b = codes "b"

abbrev mine : Config
mine = record { root = field key_a (int (pos 1)) (field key_b (object no_fields) no_fields) }

abbrev theirs : Config
theirs = record {
  root =
      field key_a (object no_fields) (field key_b (object (field key_a null no_fields)) no_fields);
}

mine-IsOrdered : IsOrdered mine.root
unfolding IsOrdered text_leb
mine-IsOrdered = ((refl, tt), tt, (tt, tt, tt))

theirs-IsOrdered : IsOrdered theirs.root
unfolding IsOrdered text_leb
theirs-IsOrdered = ((refl, tt), tt, (tt, (tt, tt, tt), tt))

with_fallback-merged_with_example : with_fallback mine theirs ≡ merged_with theirs mine
with_fallback-merged_with_example =
    with_fallback-merged_with mine theirs mine-IsOrdered theirs-IsOrdered

one_is_no-IsObject : ¬ IsObject (int (pos 1))
one_is_no-IsObject (f, e) = cc e

parted : Apart (key_a ∷ key_b ∷ []) (key_a ∷ key_a ∷ [])
unfolding Apart text_beq
parted = inr (inl (λ e. let same : false ≡ true = (text_beq_iff key_a key_b).1 e in cc same))

append_dotted_lem_example :
    ((items : Items) × (lookup
          (append_dotted theirs.root (key_a ∷ key_b ∷ []) null)
          (key_a ∷ key_b ∷ [])
        ≡ some (array items))
      × (values items ≡ array_under (lookup theirs.root (key_a ∷ key_b ∷ [])) ++ null ∷ []))
    × (lookup (append_dotted theirs.root (key_a ∷ key_b ∷ []) null) (key_a ∷ key_a ∷ [])
        ≡ lookup theirs.root (key_a ∷ key_a ∷ []))
    × (lookup (insert_dotted theirs.root (key_a ∷ key_b ∷ []) null) (key_a ∷ key_a ∷ [])
        ≡ lookup theirs.root (key_a ∷ key_a ∷ []))
append_dotted_lem_example =
    append_dotted_lem key_a (key_b ∷ []) (key_a ∷ key_a ∷ []) theirs.root null parted

parse_string-quotes_example :
    (t : Text) × (parse_string
        (record { rest = b'"' ∷ escaped (0xc3 ∷ 0xa9 ∷ []) ++ b'"' ∷ []; line = 1; col = 1 })
      ≡ done t
          (record { rest = []; line = 1; col = suc (2 + length (escaped (0xc3 ∷ 0xa9 ∷ []))) }))
    × ((t ≡ 0xc3 ∷ 0xa9 ∷ []) ↔ (high (0xc3 ∷ 0xa9 ∷ []) ≡ 0))
    × (length t ≡ 2 + high (0xc3 ∷ 0xa9 ∷ []))
parse_string-quotes_example =
    parse_string-quotes (0xc3 ∷ 0xa9 ∷ []) [] 1 1 (λ e. unfold peek_at in cc e)

-- `a = ${b}`, `b = ${c}`, `c = 1`: `a` is left with the placeholder of `c`.
abbrev chained : Fields
chained =
    field key_a (string (strict_marker ++ key_b)) (
      field key_b (string (strict_marker ++ codes "c")) (field (codes "c") (int (pos 1)) no_fields))

abbrev half_resolved : Fields
half_resolved =
    field key_a (string (strict_marker ++ codes "c"))
      (field key_b (int (pos 1)) (field (codes "c") (int (pos 1)) no_fields))

chained_resolves : resolve_substitutions no_env (object chained) ≡ fine (object half_resolved)
unfolding resolve_substitutions resolve_in resolve_text strict lookup_path lookup_segments
    split_dots strip_prefix get text_beq
chained_resolves = refl

resolve_verbatim_example : get key_a half_resolved ≡ some (string (strict_marker ++ codes "c"))
resolve_verbatim_example =
    resolve_verbatim no_env chained half_resolved key_a key_b (string (strict_marker ++ codes "c"))
      chained_resolves there target
  where
    there : get key_a chained ≡ some (string (strict_marker ++ key_b))
    there = unfold get text_beq in refl

    target : lookup_path (object chained) key_b ≡ some (string (strict_marker ++ codes "c"))
    target = unfold lookup_path lookup_segments split_dots get text_beq in refl
