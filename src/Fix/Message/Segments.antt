-- ===== src/Fix/Message/Segments.antt =====
-- One field between delimiters: how it is cut out, and how it is scanned.
use atomr.Base.{
  ℕ, ◌-◌, ◌<◌, ◌≡◌, ◌≢◌, refl, ap, ◌∙◌, true, inr, some, [], ◌∷◌, ◌++◌, arith, nat_beq_iff, Text,
  to_string, decimal-IsDigit, decimal_cons, IsDigit, parse_uint-to_string, is_utf8, is_utf8-ascii,
  valid_from, valid_from-append, u32_mod, length, All,
}
use mathlib.Core.List.{append_assoc}
use atomr.Fix.Tags
use atomr.Fix.Message.{soh}
use atomr.Fix.Message.Wire.{field_bytes, split_soh, split_eq, Scan, accept, scan_field, scan_pair}

-- The bytes of a field without its delimiter.
unfoldable pub segment : ℕ → Text → Text
segment tag value = to_string tag ++ b'=' ∷ value

abbrev pub IsPlainByte : ℕ → Type 0
IsPlainByte b = b ≢ soh

-- A value that a field can carry: UTF-8 without the delimiter.
unfoldable pub IsValue : Text → Type 0
IsValue v = All IsPlainByte v × (is_utf8 v ≡ true)

split_soh-append :
    (l m : Text)
    → All IsPlainByte l
    → split_soh (l ++ soh ∷ m) ≡ (l, (split_soh m).0 ∷ (split_soh m).1)
unfolding split_soh
split_soh-append [] m h = refl
split_soh-append (b ∷ l) m h = ground (arith, nat_beq_iff b soh, h.0, split_soh-append l m h.1)

digits-IsPlainByte : (l : Text) → All IsDigit l → All IsPlainByte l
digits-IsPlainByte [] h = tt
digits-IsPlainByte (b ∷ l) h = (λ e. omega (arith, e, h.0.0), digits-IsPlainByte l h.1)

plain-append : (l m : Text) → All IsPlainByte l → All IsPlainByte m → All IsPlainByte (l ++ m)
plain-append [] m h k = k
plain-append (b ∷ l) m h k = (h.0, plain-append l m h.1 k)

pub split_soh-field_bytes :
    (tag : ℕ) (value rest : Text)
    → IsValue value
    → split_soh (field_bytes tag value ++ rest)
      ≡ (segment tag value, (split_soh rest).0 ∷ (split_soh rest).1)
unfolding field_bytes segment IsValue
split_soh-field_bytes tag value rest h =
    let digits = digits-IsPlainByte (to_string tag) (decimal-IsDigit 19 tag) in
    let plain = plain-append (to_string tag) (b'=' ∷ value) digits ((λ e. omega (arith, e)), h.0) in
    let same : (field_bytes tag value ++ rest ≡ segment tag value ++ soh ∷ rest) =
      simp append_assoc refl in
    ap split_soh same ∙ split_soh-append (segment tag value) rest plain

split_eq-append : (l m : Text) → All IsDigit l → split_eq (l ++ b'=' ∷ m) ≡ some (l, m)
unfolding split_eq
split_eq-append [] m h = refl
split_eq-append (b ∷ l) m h = ground (arith, split_eq-append l m h.1, h.0)

pub split_eq-segment :
    (tag : ℕ) (value : Text) → split_eq (segment tag value) ≡ some (to_string tag, value)
unfolding segment
split_eq-segment tag value = split_eq-append (to_string tag) value (decimal-IsDigit 19 tag)

digits_ascii : (l : Text) → All IsDigit l → All (λ b. b < 0x80) l
digits_ascii [] h = tt
digits_ascii (b ∷ l) h = (omega (arith, h.0.1), digits_ascii l h.1)

pub digits-IsValue : (l : Text) → All IsDigit l → IsValue l
unfolding IsValue
digits-IsValue l h = (digits-IsPlainByte l h, is_utf8-ascii l (digits_ascii l h))

eq-is_utf8 : (l : Text) → is_utf8 l ≡ true → is_utf8 (b'=' ∷ l) ≡ true
unfolding valid_from
eq-is_utf8 l h = h

pub is_utf8-segment : (tag : ℕ) (value : Text) → IsValue value → is_utf8 (segment tag value) ≡ true
unfolding segment IsValue
is_utf8-segment tag value h =
    valid_from-append [] (to_string tag) (b'=' ∷ value)
      (is_utf8-ascii (to_string tag) (digits_ascii (to_string tag) (decimal-IsDigit 19 tag)))
      (eq-is_utf8 value h.1)

pub segment_cons : (tag : ℕ) (value : Text) → (b : ℕ) × (l : Text) × (segment tag value ≡ b ∷ l)
unfolding segment
segment_cons tag value =
    let (c, s, e, lo, hi) = decimal_cons 19 tag in
    (c, s ++ b'=' ∷ value, ap (λ l. l ++ b'=' ∷ value) e)

pub nonempty-scan_field :
    (s : Scan) (raw : Text)
    → ((b : ℕ) × (l : Text) × (raw ≡ b ∷ l))
    → (tag_str value : Text) → is_utf8 raw ≡ true
    → split_eq raw ≡ some (tag_str, value)
    → scan_field s raw ≡ scan_pair s tag_str value (length raw)
unfolding scan_field
nonempty-scan_field s [] (b, l, e) tag_str value u q = absurd (cc e)
nonempty-scan_field s (c ∷ r) p tag_str value u q = rw (u, q) refl

pair_accepted :
    (s : Scan) (tag : ℕ) (value : Text) (size : ℕ)
    → tag < u32_mod
    → tag ≢ Tags.check_sum
    → scan_pair s (to_string tag) value size ≡ inr (accept s tag value size)
unfolding scan_pair
pair_accepted s tag value size h n =
    let e = parse_uint-to_string (u32_mod - 1) tag (omega arith) (omega (arith, h)) in
    rw (scan_pair, e) (ground (arith, nat_beq_iff tag 10))

-- A segment that is not the checksum is accepted.
pub scan_field-segment :
    (s : Scan) (tag : ℕ) (value : Text)
    → tag < u32_mod
    → tag ≢ Tags.check_sum
    → IsValue value
    → scan_field s (segment tag value) ≡ inr (accept s tag value (length (segment tag value)))
scan_field-segment s tag value h n v =
    nonempty-scan_field s (segment tag value) (segment_cons tag value) (to_string tag) value
      (is_utf8-segment tag value v) (split_eq-segment tag value)
    ∙ pair_accepted s tag value (length (segment tag value)) h n
