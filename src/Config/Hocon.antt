-- ===== src/Config/Hocon.antt =====
-- crates/atomr-config/src/hocon.rs: the parser. Its nested calls run on fuel, of which `parse_root` gives
-- two for each byte. `do_include` and the parser of `f64` are parameters.
pub mod Parts
pub mod Ends
pub mod Root
use atomr.Base.{
  ℕ, zero, suc, ◌+◌, ◌*◌, Bool, true, false, not, ◌&&◌, ◌||◌, Option, none, some, List, [], ◌∷◌,
  ◌++◌, nat_beq, if◌then◌else◌, length, Text, codes, is_utf8, trim,
}
use atomr.Config.Value.{
  ConfigValue, string, array, object, Items, no_items, item, Fields, no_fields, object_of,
}
use atomr.Config.Cursor.{
  HoconError, unexpected, unterminated, expected, Parser, Run, done, failed, out_of_fuel, and_then,
  peek_at, is_byte, found, starts_with_keyword, advance, skip_while, slice, skip_ws_inline,
  skip_ws_and_comments,
}
use atomr.Config.Cursor
use atomr.Config.Scalar.{scalar_from_str}
use atomr.Config.Strings.{parse_string, parse_key, parse_substitution}
use atomr.Config.Dotted.{deep_merge, push, append_dotted, insert_dotted}

-- `Result<ConfigValue, HoconError>`
pub data Parsed : Type 0 where
  ok : ConfigValue → Parsed
  err : HoconError → Parsed
  cut_off : Parsed

-- Where an unquoted scalar goes on.
unfoldable pub in_scalar : ℕ → Text → Bool
in_scalar c l = not (
    nat_beq c b','
    || nat_beq c b'\n'
    || nat_beq c b'}'
    || nat_beq c b']'
    || nat_beq c b';'
    || nat_beq c b'#'
    || (nat_beq c b'/' && is_byte (peek_at l 0) b'/'))

-- The fuel of a document.
unfoldable pub enough : Text → ℕ
enough src = 2 * length src + 2

module _ (do_include : Text → Parsed) (parse_f64 : Text → Option ℕ) where
  unfoldable pub scalar_or_error : Text → Parser → Run ConfigValue
  scalar_or_error [] q = failed (expected (codes "value") [] q.line)
  scalar_or_error (c ∷ s) q = done (scalar_from_str parse_f64 (c ∷ s)) q

  unfoldable pub parse_unquoted_scalar : Parser → Run ConfigValue
  parse_unquoted_scalar p =
      let q = skip_while in_scalar p.rest p.line p.col in
      if is_utf8 (slice p q)
      then scalar_or_error (trim (slice p q)) q
      else failed (unexpected 0 q.line q.col)

  -- What follows the keyword `include`, merged into the object.
  unfoldable pub included : Text → Parsed → Fields → Parser → Run Fields
  included path (ok v) obj p = elim (object_of (some v)) [
    | some child ↦ done (deep_merge obj child) p
    | none ↦
        failed (
          Cursor.include
            (codes "included file `" ++ path ++ codes "` did not resolve to an object"))
  ]
  included path (err e) obj p = failed e
  included path cut_off obj p = out_of_fuel

  unfoldable pub parse_include : Fields → Parser → Run Fields
  parse_include obj p =
      and_then (parse_string (skip_ws_inline (advance 7 p)))
        (λ path q. included path (do_include path) obj q)

  unfoldable pub assigned : Fields → List Text → ConfigValue × Bool → Fields
  assigned obj key (value, append) =
      if append then append_dotted obj key value else insert_dotted obj key value

  unfoldable mutual
    pub parse_value : ℕ → Parser → Run ConfigValue
    parse_value zero p0 = out_of_fuel
    parse_value (suc n) p0 =
        let p = skip_ws_inline p0 in
        elim p.rest [
          | [] ↦ failed (unterminated (codes "value") p.line)
          | c ∷ l ↦ elim (nat_beq c b'"') [
            | true ↦ and_then (parse_string p) (λ s q. done (string s) q)
            | false ↦ elim (nat_beq c b'[') [
              | true ↦ parse_array n (advance 1 p) no_items
              | false ↦ elim (nat_beq c b'{') [
                | true ↦
                    and_then (parse_object_body n (advance 1 p) b'}' no_fields)
                      (λ inner q. done (object inner) q)
                | false ↦ elim (nat_beq c b'$' && is_byte (peek_at l 0) b'{') [
                  | true ↦ parse_substitution p
                  | false ↦ parse_unquoted_scalar p
                ]
              ]
            ]
          ]
        ]

    -- The loop behind the `[`.
    pub parse_array : ℕ → Parser → Items → Run ConfigValue
    parse_array zero p0 items = out_of_fuel
    parse_array (suc n) p0 items =
        let p = skip_ws_and_comments p0 in
        elim p.rest [
          | [] ↦ failed (unterminated (codes "array") p.line)
          | c ∷ l ↦ elim (nat_beq c b']') [
            | true ↦ done (array items) (advance 1 p)
            | false ↦ elim (nat_beq c b',' || nat_beq c b'\n') [
              | true ↦ parse_array n (advance 1 p) items
              | false ↦ and_then (parse_value n p) (λ v q. parse_array n q (push items v))
            ]
          ]
        ]

    -- The value behind a key, and whether it is appended.
    pub parse_assignment : ℕ → Parser → Run (ConfigValue × Bool)
    parse_assignment zero p = out_of_fuel
    parse_assignment (suc n) p = elim p.rest [
      | [] ↦ failed (unterminated (codes "assignment") p.line)
      | c ∷ l ↦ elim (nat_beq c b'{') [
        | true ↦
            and_then (parse_object_body n (advance 1 p) b'}' no_fields)
              (λ inner q. done (object inner, false) q)
        | false ↦ elim (nat_beq c b'+' && is_byte (peek_at l 0) b'=') [
          | true ↦ and_then (parse_value n (skip_ws_inline (advance 2 p))) (λ v q. done (v, true) q)
          | false ↦ elim (nat_beq c b'=' || nat_beq c b':') [
            | true ↦
                and_then (parse_value n (skip_ws_inline (advance 1 p))) (λ v q. done (v, false) q)
            | false ↦ failed (expected (codes "= or : or { or +=") (found (some c)) p.line)
          ]
        ]
      ]
    ]

    -- The loop of `parse_object_body`, with the entries so far.
    pub parse_object_body : ℕ → Parser → (terminator : ℕ) → Fields → Run Fields
    parse_object_body zero p0 terminator obj = out_of_fuel
    parse_object_body (suc n) p0 terminator obj =
        let p = skip_ws_and_comments p0 in
        elim p.rest [
          | [] ↦
              if nat_beq terminator 0
              then done obj p
              else failed (unterminated (codes "object") p.line)
          | c ∷ l ↦ elim (nat_beq c terminator) [
            | true ↦ done obj (advance 1 p)
            | false ↦ elim (nat_beq c b',' || nat_beq c b'\n' || nat_beq c b';') [
              | true ↦ parse_object_body n (advance 1 p) terminator obj
              | false ↦ elim (starts_with_keyword (codes "include") p.rest) [
                | true ↦
                    and_then (parse_include obj p)
                      (λ merged q. parse_object_body n q terminator merged)
                | false ↦ and_then (parse_key p) (λ key q.
                    and_then (parse_assignment n (skip_ws_inline q))
                      (λ value r. parse_object_body n r terminator (assigned obj key value)))
              ]
            ]
          ]
        ]

  -- What is left behind the root.
  unfoldable pub at_end : Fields → Parser → Parsed
  at_end obj p = elim p.rest [ [] ↦ ok (object obj) | c ∷ l ↦ err (unexpected c p.line p.col) ]

  unfoldable pub parsed_root : Run Fields → Parsed
  parsed_root (done obj p) = at_end obj (skip_ws_and_comments p)
  parsed_root (failed e) = err e
  parsed_root out_of_fuel = cut_off

  unfoldable pub parse_root : Text → Parsed
  parse_root src =
      let p = skip_ws_and_comments (Cursor.new src) in
      parsed_root (elim (is_byte (peek_at p.rest 0) b'{') [
        | true ↦
            and_then (parse_object_body (enough src) (advance 1 p) b'}' no_fields)
              (λ o q. done o (skip_ws_and_comments q))
        | false ↦ parse_object_body (enough src) p 0 no_fields
      ])
