-- ===== src/Fix/Message/Wire.antt =====
-- `FixMessage::to_wire` and `FixMessage::parse` of crates/atomr-fix/src/message.rs.
use atomr.Base.{
  ℕ, ◌+◌, ◌-◌, ◌/◌, ◌%◌, Bool, true, ◌&&◌, ◌||◌, not, ◌⊎◌, inl, inr, Option, none, some, List, [],
  ◌∷◌, ◌++◌, leb, nat_beq, if◌then◌else◌, Text, codes, to_string, parse_uint, is_utf8, u32_mod,
  length, take, unwrap_or,
}
use atomr.Fix.Tags
use atomr.Fix.Message.{
  soh, FixField, FixMessage, FixParseError, empty, malformed_field, invalid_tag, not_utf8,
  checksum_mismatch, invalid_check_sum, get,
}

-- The bytes of a field, with the delimiter.
unfoldable pub field_bytes : ℕ → Text → Text
field_bytes tag value = to_string tag ++ (b'=' ∷ (value ++ soh ∷ []))

unfoldable pub is_framing : ℕ → Bool
is_framing tag =
    nat_beq tag Tags.begin_string
    || nat_beq tag Tags.body_length
    || nat_beq tag Tags.msg_type
    || nat_beq tag Tags.check_sum

unfoldable pub body_fields : List FixField → Text
body_fields [] = []
body_fields (f ∷ fields) =
    let rest = body_fields fields in
    if is_framing f.tag then rest else field_bytes f.tag f.value ++ rest

unfoldable pub byte_sum : Text → ℕ
byte_sum [] = 0
byte_sum (b ∷ l) = b + byte_sum l

-- The sum is a `u32`, then `% 256`.
unfoldable pub checksum : Text → ℕ
checksum l = byte_sum l % u32_mod % 256

-- `format!("{n:03}")` of a `u8`.
unfoldable pub three_digits : ℕ → Text
three_digits n = (b'0' + n / 100) ∷ (b'0' + n / 10 % 10) ∷ (b'0' + n % 10) ∷ []

unfoldable pub body : FixMessage → Text
body m = field_bytes Tags.msg_type (unwrap_or (get m Tags.msg_type) []) ++ body_fields m.fields

-- What the checksum covers.
unfoldable pub covered : FixMessage → Text
covered m =
    field_bytes Tags.begin_string (unwrap_or (get m Tags.begin_string) (codes "FIX.4.4"))
    ++ (field_bytes Tags.body_length (to_string (length (body m))) ++ body m)

unfoldable pub to_wire : FixMessage → Text
to_wire m = covered m ++ field_bytes Tags.check_sum (three_digits (checksum (covered m)))

-- `input.split(|b| *b == SOH)`: the first segment, and the others.
unfoldable pub split_soh : Text → Text × List Text
split_soh [] = ([], [])
split_soh (b ∷ l) =
    let (first, others) = split_soh l in
    if nat_beq b soh then ([], first ∷ others) else (b ∷ first, others)

-- `s.find('=')`, `split_at` and the skip of the sign.
unfoldable pub split_eq : Text → Option (Text × Text)
split_eq [] = none
split_eq (b ∷ l) =
    let rest = split_eq l in
    if nat_beq b b'='
    then some ([], l)
    else elim rest [ none ↦ none | some (tag, value) ↦ some (b ∷ tag, value) ]

unfoldable pub is_digits : Text → Bool
is_digits [] = true
is_digits (b ∷ l) = leb b'0' b && leb b b'9' && is_digits l

pub record Scan : Type 0 where
  pub fields : List FixField
  pub checksum_boundary : Option ℕ
  pub found_checksum : Option ℕ
  pub offset : ℕ

unfoldable pub start : Scan
start = record { fields = []; checksum_boundary = none; found_checksum = none; offset = 0 }

-- The end of a round: the field is pushed and the offset moves past the segment and its delimiter.
unfoldable pub accept : Scan → ℕ → Text → ℕ → Scan
accept s tag value size = record s {
  fields = s.fields ++ record { tag = tag; value = value } ∷ [];
  offset = s.offset + size + 1;
}

unfoldable pub accept_checksum : Scan → Text → ℕ → FixParseError ⊎ Scan
accept_checksum s value size =
    if not (nat_beq (length value) 3) || not (is_digits value)
    then inl (invalid_check_sum value)
    else elim (parse_uint (u32_mod - 1) value) [
      | none ↦ inl (invalid_check_sum value)
      | some n ↦ inr (record (accept s Tags.check_sum value size) {
        checksum_boundary = some s.offset;
        found_checksum = some (n % 256);
      })
    ]

unfoldable pub scan_pair : Scan → Text → Text → ℕ → FixParseError ⊎ Scan
scan_pair s tag_str value size = elim (parse_uint (u32_mod - 1) tag_str) [
  | none ↦ inl (invalid_tag tag_str)
  | some tag ↦
      if nat_beq tag Tags.check_sum
      then accept_checksum s value size
      else inr (accept s tag value size)
]

-- One round of the loop.
unfoldable pub scan_field : Scan → Text → FixParseError ⊎ Scan
scan_field s [] = inr (record s { offset = s.offset + 1 })
scan_field s (b ∷ l) = if not (is_utf8 (b ∷ l)) then inl not_utf8 else elim (split_eq (b ∷ l)) [
  | none ↦ inl (malformed_field (b ∷ l))
  | some (tag_str, value) ↦ scan_pair s tag_str value (length (b ∷ l))
]

unfoldable pub scan : Scan → List Text → FixParseError ⊎ Scan
scan s [] = inr s
scan s (raw ∷ raws) = elim (scan_field s raw) [ inl e ↦ inl e | inr t ↦ scan t raws ]

unfoldable pub verify : Text → Scan → FixParseError ⊎ FixMessage
verify input s = elim s.checksum_boundary [
  | none ↦ inr (record { fields = s.fields })
  | some boundary ↦ elim s.found_checksum [
    | none ↦ inr (record { fields = s.fields })
    | some found ↦
        if nat_beq (checksum (take boundary input)) found
        then inr (record { fields = s.fields })
        else inl (checksum_mismatch (checksum (take boundary input)) found)
  ]
]

unfoldable pub conclude : Text → Scan → FixParseError ⊎ FixMessage
conclude input s = elim s.fields [ [] ↦ inl empty | f ∷ fs ↦ verify input s ]

unfoldable pub parse : Text → FixParseError ⊎ FixMessage
parse [] = inl empty
parse (b ∷ l) =
    let (first, others) = split_soh (b ∷ l) in
    elim (scan start (first ∷ others)) [ inl e ↦ inl e | inr s ↦ conclude (b ∷ l) s ]
