-- ===== src/Fix/Message/RoundTrip.antt =====
-- What `to_wire` writes, `parse` reads.
use atomr.Base.{
  ℕ, ◌+◌, ◌-◌, ◌*◌, ◌/◌, ◌%◌, ◌<◌, ◌≡◌, ◌≢◌, refl, sym, ap, ◌∙◌, false, not, inr, some, List, [],
  ◌∷◌, ◌++◌, arith, nat_beq, Text, to_string, parse_uint, parse_digits, parse_uint-to_string,
  u32_mod, length, length-append, All, IsDigit, ◌||◌,
}
use mathlib.Core.List.{append_assoc, append-nil}
use atomr.Fix.Tags
use atomr.Fix.Message.{soh, FixField}
use atomr.Fix.Message.Wire.{
  field_bytes, three_digits, split_soh, Scan, accept, accept_checksum, scan_field, scan_pair, scan,
  is_digits,
}
use atomr.Fix.Message.Segments.{
  segment, IsValue, split_soh-field_bytes, scan_field-segment, nonempty-scan_field, segment_cons,
  split_eq-segment, is_utf8-segment, digits-IsValue,
}

unfoldable pub encode : List FixField → Text
encode [] = []
encode (f ∷ fields) = field_bytes f.tag f.value ++ encode fields

unfoldable pub segments : List FixField → List Text
segments [] = []
segments (f ∷ fields) = segment f.tag f.value ∷ segments fields

-- A field with a tag that fits and is not the checksum's, and a value that a field can carry.
unfoldable pub IsField : FixField → Type 0
IsField f = (f.tag < u32_mod) × (f.tag ≢ Tags.check_sum) × IsValue f.value

unfoldable pub all_segments : Text → List Text
all_segments l = (split_soh l).0 ∷ (split_soh l).1

pub all_segments-encode :
    (fields : List FixField) (rest : Text)
    → All IsField fields
    → all_segments (encode fields ++ rest) ≡ segments fields ++ all_segments rest
unfolding encode segments all_segments IsField
all_segments-encode [] rest h = refl
all_segments-encode (f ∷ fields) rest h =
    let same : (encode (f ∷ fields) ++ rest
        ≡ field_bytes f.tag f.value ++ (encode fields ++ rest)) =
      simp append_assoc refl in
    ap all_segments same
    ∙ ap (λ p. p.0 ∷ p.1) (split_soh-field_bytes f.tag f.value (encode fields ++ rest) h.0.2)
    ∙ ap (λ l. segment f.tag f.value ∷ l) (all_segments-encode fields rest h.1)

unfoldable pub accept_all : Scan → List FixField → Scan
accept_all s [] = s
accept_all s (f ∷ fields) =
    accept_all (accept s f.tag f.value (length (segment f.tag f.value))) fields

pub scan-segments :
    (s : Scan) (fields : List FixField) (rest : List Text)
    → All IsField fields
    → scan s (segments fields ++ rest) ≡ scan (accept_all s fields) rest
unfolding scan segments accept_all IsField
scan-segments s [] rest h = refl
scan-segments s (f ∷ fields) rest h =
    rw (scan, scan_field-segment s f.tag f.value h.0.0 h.0.1 h.0.2)
      (scan-segments (accept s f.tag f.value (length (segment f.tag f.value))) fields rest h.1)

moved :
    (s : Scan) {l m : List FixField} {i j : ℕ}
    → l ≡ m
    → i ≡ j
    → ◌≡◌ {A = Scan} (record s { fields = l; offset = i }) (record s { fields = m; offset = j })
moved s p q = rw (p, q) refl

length-field_bytes :
    (tag : ℕ) (value : Text) → length (field_bytes tag value) ≡ length (segment tag value) + 1
unfolding field_bytes segment
length-field_bytes tag value = omega (
  arith,
  length-append (to_string tag) (b'=' ∷ (value ++ soh ∷ [])),
  length-append value (soh ∷ []),
  length-append (to_string tag) (b'=' ∷ value),
)

pub accept_all_lem :
    (s : Scan) (fields : List FixField)
    → accept_all s fields
      ≡ record s { fields = s.fields ++ fields; offset = s.offset + length (encode fields) }
unfolding accept_all accept encode
accept_all_lem s [] = moved s (sym (append-nil s.fields)) (omega arith)
accept_all_lem s (f ∷ fields) =
    let size = length (segment f.tag f.value) in
    accept_all_lem (accept s f.tag f.value size) fields
    ∙ moved s (append_assoc s.fields (f ∷ []) fields) (
        omega (
          arith,
          length-field_bytes f.tag f.value,
          length-append (field_bytes f.tag f.value) (encode fields),
        ))

digits_value :
    (a b d : ℕ)
    → a < 10
    → b < 10
    → d < 10
    → parse_uint (u32_mod - 1) ((b'0' + a) ∷ (b'0' + b) ∷ (b'0' + d) ∷ [])
      ≡ some ((a * 10 + b) * 10 + d)
unfolding parse_uint parse_digits
digits_value a b d ha hb hd = ground arith

parse_three_digits : (n : ℕ) → n < 256 → parse_uint (u32_mod - 1) (three_digits n) ≡ some n
unfolding three_digits
parse_three_digits n h =
    digits_value (n / 100) (n / 10 % 10) (n % 10) (omega (arith, h)) (omega arith) (omega arith)
    ∙ ap some (omega (arith, h))

three_digits-IsDigit : (n : ℕ) → n < 256 → All IsDigit (three_digits n)
unfolding three_digits
three_digits-IsDigit n h = (
  (omega arith, omega (arith, h)),
  ((omega arith, omega arith), ((omega arith, omega arith), tt)),
)

pub three_digits-IsValue : (n : ℕ) → n < 256 → IsValue (three_digits n)
three_digits-IsValue n h = digits-IsValue (three_digits n) (three_digits-IsDigit n h)

three_digits-is_digits :
    (n : ℕ)
    → n < 256
    → (not (nat_beq (length (three_digits n)) 3) || not (is_digits (three_digits n))) ≡ false
unfolding three_digits is_digits
three_digits-is_digits n h = ground arith

mod_small : (n : ℕ) → n < 256 → n % 256 ≡ n
mod_small n h = omega (arith, h)

three_digits_checked :
    (s : Scan) (n size : ℕ)
    → n < 256
    → accept_checksum s (three_digits n) size
      ≡ inr (record (accept s Tags.check_sum (three_digits n) size) {
        checksum_boundary = some s.offset;
        found_checksum = some n;
      })
unfolding accept_checksum
three_digits_checked s n size h =
    rw (accept_checksum, three_digits-is_digits n h, parse_three_digits n h, mod_small n h) refl

pub scan_checksum :
    (s : Scan) (n : ℕ)
    → n < 256
    → scan_field s (segment Tags.check_sum (three_digits n))
      ≡ inr
          (record (accept s Tags.check_sum
            (three_digits n)
            (length (segment Tags.check_sum (three_digits n)))) {
              checksum_boundary = some s.offset;
              found_checksum = some n;
            })
unfolding scan_pair
scan_checksum s n h =
    nonempty-scan_field s (segment Tags.check_sum (three_digits n))
      (segment_cons Tags.check_sum (three_digits n)) (to_string Tags.check_sum) (three_digits n)
      (is_utf8-segment Tags.check_sum (three_digits n) (three_digits-IsValue n h))
      (split_eq-segment Tags.check_sum (three_digits n))
    ∙ rw (scan_pair, parse_uint-to_string (u32_mod - 1) Tags.check_sum (omega arith) (omega arith))
        (three_digits_checked s n (length (segment Tags.check_sum (three_digits n))) h)
