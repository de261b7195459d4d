-- ===== src/Fix/Message.antt =====
-- crates/atomr-fix/src/message.rs: message types, fields and messages. A `String` is its bytes.
pub mod Wire
pub mod Fields
pub mod Segments
pub mod RoundTrip
pub mod Parsed
use atomr.Base.{
  ℕ, ◌^◌, ◌-◌, Bool, true, false, Option, none, some, List, [], ◌∷◌, nat_beq, if◌then◌else◌, Text,
  text_beq, codes, parse_uint, u64_mod,
}
use atomr.Fix.Tags

abbrev pub soh : ℕ
soh = 1

pub record FixField : Type 0 where
  pub tag : ℕ
  pub value : Text

pub data MsgType : Type 0 where
  logon : MsgType
  heartbeat : MsgType
  test_request : MsgType
  resend_request : MsgType
  sequence_reset : MsgType
  logout : MsgType
  new_order_single : MsgType
  execution_report : MsgType
  other : Text → MsgType

unfoldable pub code : MsgType → Text
code logon = codes "A"
code heartbeat = codes "0"
code test_request = codes "1"
code resend_request = codes "2"
code sequence_reset = codes "4"
code logout = codes "5"
code new_order_single = codes "D"
code execution_report = codes "8"
code (other s) = s

unfoldable pub from_code : Text → MsgType
from_code code =
    if text_beq code (codes "A")
    then logon
    else if text_beq code (codes "0")
    then heartbeat
    else if text_beq code (codes "1")
    then test_request
    else if text_beq code (codes "2")
    then resend_request
    else if text_beq code (codes "4")
    then sequence_reset
    else if text_beq code (codes "5")
    then logout
    else if text_beq code (codes "D")
    then new_order_single
    else if text_beq code (codes "8")
    then execution_report
    else other code

unfoldable pub is_admin : MsgType → Bool
is_admin logon = true
is_admin heartbeat = true
is_admin test_request = true
is_admin resend_request = true
is_admin sequence_reset = true
is_admin logout = true
is_admin new_order_single = false
is_admin execution_report = false
is_admin (other s) = false

pub data FixParseError : Type 0 where
  empty : FixParseError
  malformed_field : Text → FixParseError
  invalid_tag : Text → FixParseError
  not_utf8 : FixParseError
  missing_field : ℕ → FixParseError
  checksum_mismatch : (computed found : ℕ) → FixParseError
  invalid_check_sum : Text → FixParseError

pub record FixMessage : Type 0 where
  pub fields : List FixField

unfoldable pub new : FixMessage
new = record { fields = [] }

unfoldable pub find : ℕ → List FixField → Option Text
find tag [] = none
find tag (f ∷ fields) = if nat_beq f.tag tag then some f.value else find tag fields

-- The first field with the tag gets the value, or a new field at the end.
unfoldable pub put : ℕ → Text → List FixField → List FixField
put tag value [] = record { tag = tag; value = value } ∷ []
put tag value (f ∷ fields) =
    let rest = put tag value fields in
    if nat_beq f.tag tag then record f { value = value } ∷ fields else f ∷ rest

unfoldable pub get : FixMessage → ℕ → Option Text
get m tag = find tag m.fields

unfoldable pub set : FixMessage → ℕ → Text → FixMessage
set m tag value = record { fields = put tag value m.fields }

unfoldable pub of_type : MsgType → FixMessage
of_type msg_type = set new Tags.msg_type (code msg_type)

abbrev pub u64_max : ℕ
u64_max = u64_mod - 1

unfoldable pub parsed : Option Text → Option ℕ
parsed none = none
parsed (some v) = parse_uint u64_max v

unfoldable pub get_u64 : FixMessage → ℕ → Option ℕ
get_u64 m tag = parsed (get m tag)

unfoldable pub typed : Option Text → Option MsgType
typed none = none
typed (some v) = some (from_code v)

unfoldable pub msg_type : FixMessage → Option MsgType
msg_type m = typed (get m Tags.msg_type)

unfoldable pub seq_num : FixMessage → Option ℕ
seq_num m = get_u64 m Tags.msg_seq_num
