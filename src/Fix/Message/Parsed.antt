-- ===== src/Fix/Message/Parsed.antt =====
-- What `parse` gives for the whole of what `to_wire` writes.
use atomr.Base.{
  ℕ, ◌+◌, ◌<◌, ◌≡◌, refl, sym, ap, ◌∙◌, true, inl, inr, some, List, [], ◌∷◌, ◌++◌, arith, nat_beq,
  if◌then◌else◌, Text, codes, to_string, decimal-IsDigit, decimal, beq_refl, nat_eq, valid_from,
  u32_mod, length, take-append, unwrap_or, All,
}
use mathlib.Core.List.{append-nil}
use atomr.Fix.Tags
use atomr.Fix.Message.{FixField, FixMessage, empty, checksum_mismatch, find, get}
use atomr.Fix.Message.Wire.{
  field_bytes, is_framing, body_fields, body, covered, to_wire, checksum, three_digits, split_soh,
  Scan, start, accept, scan_field, scan, verify, conclude, parse,
}
use atomr.Fix.Message.Segments.{segment, IsValue, split_soh-field_bytes, digits-IsValue}
use atomr.Fix.Message.RoundTrip.{
  encode, segments, IsField, all_segments, all_segments-encode, scan-segments, accept_all_lem,
  three_digits-IsValue, scan_checksum,
}

-- The fields but those that `to_wire` puts at the ends itself.
unfoldable pub payload : List FixField → List FixField
payload [] = []
payload (f ∷ fields) = let rest = payload fields in if is_framing f.tag then rest else f ∷ rest

abbrev pub field : ℕ → Text → FixField
field tag value = record { tag = tag; value = value }

unfoldable pub header : FixMessage → List FixField
header m =
    field Tags.begin_string (unwrap_or (get m Tags.begin_string) (codes "FIX.4.4"))
    ∷ field Tags.body_length (to_string (length (body m)))
    ∷ field Tags.msg_type (unwrap_or (get m Tags.msg_type) [])
    ∷ payload m.fields

-- The message with its framing: what goes over the wire.
unfoldable pub framed : FixMessage → FixMessage
framed m = record {
  fields = header m ++ field Tags.check_sum (three_digits (checksum (covered m))) ∷ [];
}

-- The tags are `u32` and the values can be carried.
abbrev pub IsCarried : FixField → Type 0
IsCarried f = (f.tag < u32_mod) × IsValue f.value

body_fields-payload : (fields : List FixField) → body_fields fields ≡ encode (payload fields)
unfolding body_fields encode payload
body_fields-payload [] = refl
body_fields-payload (f ∷ fields) = ground (arith, body_fields-payload fields)

covered-header : (m : FixMessage) → covered m ≡ encode (header m)
unfolding covered header encode body
covered-header m = rw (body_fields-payload m.fields) refl

payload-IsField : (fields : List FixField) → All IsCarried fields → All IsField (payload fields)
unfolding payload IsField is_framing
payload-IsField [] h = tt
payload-IsField (f ∷ fields) h = ground (arith, payload-IsField fields h.1)

default-IsValue : IsValue (codes "FIX.4.4")
unfolding IsValue valid_from
default-IsValue = ground arith

empty-IsValue : IsValue []
unfolding IsValue valid_from
empty-IsValue = (tt, refl)

find-IsValue :
    (tag : ℕ) (default : Text) (fields : List FixField)
    → IsValue default
    → All IsCarried fields
    → IsValue (unwrap_or (find tag fields) default)
unfolding find
find-IsValue tag default [] d h = d
find-IsValue tag default (f ∷ fields) d h =
    ground (arith, find-IsValue tag default fields d h.1, h.0)

header-IsField : (m : FixMessage) → All IsCarried m.fields → All IsField (header m)
unfolding header IsField get
header-IsField m h = (
  (
    omega arith,
    λ e. omega (arith, e),
    find-IsValue Tags.begin_string (codes "FIX.4.4") m.fields default-IsValue h,
  ),
  (
    (
      omega arith,
      λ e. omega (arith, e),
      digits-IsValue (to_string (length (body m))) (decimal-IsDigit 19 (length (body m))),
    ),
    (
      (omega arith, λ e. omega (arith, e), find-IsValue Tags.msg_type [] m.fields empty-IsValue h),
      payload-IsField m.fields h,
    ),
  ),
)

module _ (fields : List FixField) (n : ℕ) (h : All IsField fields) (b : n < 256) where
  last : Text
  last = field_bytes Tags.check_sum (three_digits n)

  scanned : Scan
  scanned = record {
    fields = fields ++ field Tags.check_sum (three_digits n) ∷ [];
    checksum_boundary = some (0 + length (encode fields));
    found_checksum = some n;
    offset = 0 + length (encode fields) + length (segment Tags.check_sum (three_digits n)) + 1 + 1;
  }

  all_segments-last : all_segments last ≡ segment Tags.check_sum (three_digits n) ∷ [] ∷ []
  unfolding last all_segments split_soh
  all_segments-last =
      ap all_segments (sym (append-nil last))
      ∙ ap (λ p. p.0 ∷ p.1)
          (split_soh-field_bytes Tags.check_sum (three_digits n) [] (three_digits-IsValue n b))

  -- The last two rounds: the checksum, and what stands behind its delimiter.
  scan_last :
      (s : Scan)
      → scan s (segment Tags.check_sum (three_digits n) ∷ [] ∷ [])
        ≡ inr (record s {
          fields = s.fields ++ field Tags.check_sum (three_digits n) ∷ [];
          checksum_boundary = some s.offset;
          found_checksum = some n;
          offset = s.offset + length (segment Tags.check_sum (three_digits n)) + 1 + 1;
        })
  unfolding scan scan_field accept
  scan_last s = rw (scan, scan_checksum s n b) refl

  scan-all : scan start (all_segments (encode fields ++ last)) ≡ inr scanned
  unfolding scanned scan start accept scan_field
  scan-all =
      ap (scan start)
        (all_segments-encode fields last h ∙ ap (λ l. segments fields ++ l) all_segments-last)
      ∙ scan-segments start fields _ h
      ∙ ap (λ s. scan s (segment Tags.check_sum (three_digits n) ∷ [] ∷ []))
          (accept_all_lem start fields)
      ∙ scan_last (record start { fields = fields; offset = 0 + length (encode fields) })

  verify-all : verify (encode fields ++ last) scanned ≡ (
      if nat_beq (checksum (encode fields)) n
      then inr (record { fields = fields ++ field Tags.check_sum (three_digits n) ∷ [] })
      else inl (checksum_mismatch (checksum (encode fields)) n))
  unfolding verify scanned
  verify-all = rw (take-append (0 + length (encode fields)) (encode fields) last (omega arith)) refl

parse_scanned :
    (input : Text) (s : Scan) (f : FixField) (fs : List FixField)
    → s.fields ≡ f ∷ fs
    → ((b : ℕ) × (l : Text) × (input ≡ b ∷ l))
    → scan start (all_segments input) ≡ inr s
    → parse input ≡ verify input s
unfolding parse conclude all_segments
parse_scanned [] s f fs e (b, l, q) h = absurd (cc q)
parse_scanned (c ∷ r) s f fs e p h =
    rw (parse, h) (ap (λ l. elim l [ [] ↦ inl empty | g ∷ gs ↦ verify (c ∷ r) s ]) e)

checksum-lt : (l : Text) → checksum l < 256
unfolding checksum
checksum-lt l = omega arith

input_cons :
    (m : FixMessage) (rest : Text) → (b : ℕ) × (l : Text) × (encode (header m) ++ rest ≡ b ∷ l)
unfolding encode header field_bytes decimal
input_cons m rest = (_, _, refl)

-- A message whose tags fit and whose values are UTF-8 without the delimiter is read back from the
-- bytes that are written for it, with its framing: begin string, body length and message type first,
-- then the other fields in their order, and the checksum, which is found right.
pub parse-to_wire : (m : FixMessage) → All IsCarried m.fields → parse (to_wire m) ≡ inr (framed m)
unfolding to_wire framed last scanned header
parse-to_wire m h =
    let n = checksum (covered m) in
    let fields = header-IsField m h in
    let small = checksum-lt (covered m) in
    let input = encode (header m) ++ last (header m) n fields small in
    let same : (to_wire m ≡ input) =
      ap (λ l. l ++ field_bytes Tags.check_sum (three_digits n)) (covered-header m) in
    let equal : (nat_beq (checksum (encode (header m))) n ≡ true) =
      rw (covered-header m) (beq_refl (checksum (encode (header m)))) in
    ap parse same
    ∙ parse_scanned input (scanned (header m) n fields small) _ _ refl (input_cons m _)
        (scan-all (header m) n fields small)
    ∙ verify-all (header m) n fields small
    ∙ rw equal refl
