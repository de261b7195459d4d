-- ===== src/Fix/Message/Fields.antt =====
-- What `get` sees after `set`, and the codes of the message types.
use atomr.Base.{
  ℕ, ◌≤◌, ◌≡◌, refl, none, some, List, [], ◌∷◌, arith, nat_beq, nat_beq_iff, if◌then◌else◌, Text,
  text_beq, text_beq_iff, codes, to_string, parse_uint-to_string,
}
use atomr.Fix.Message.{
  FixField, FixMessage, MsgType, code, from_code, find, put, get, set, get_u64, seq_num, msg_type,
  of_type, new, parsed, typed, u64_max, is_admin,
}
use atomr.Fix.Message

find-put :
    (tag : ℕ) (value : Text) (fields : List FixField) (other : ℕ)
    → find other (put tag value fields)
      ≡ (if nat_beq tag other then some value else find other fields)
unfolding find put
find-put tag value [] other = refl
find-put tag value (f ∷ fields) other =
    ground (arith, nat_beq_iff f.tag tag, find-put tag value fields other)

pub get-set :
    (m : FixMessage) (tag : ℕ) (value : Text) (other : ℕ)
    → get (set m tag value) other ≡ (if nat_beq tag other then some value else get m other)
unfolding get set
get-set m tag value other = find-put tag value m.fields other

pub get-new : (tag : ℕ) → get new tag ≡ none
unfolding get new find
get-new tag = refl

-- The code of a type is read as that type, where no text is given for a known one.
pub from_code-code :
    (t : MsgType)
    → ((s : Text) → t ≡ Message.other s → from_code s ≡ Message.other s)
    → from_code (code t) ≡ t
unfolding from_code code text_beq
from_code-code Message.logon h = refl
from_code-code Message.heartbeat h = refl
from_code-code Message.test_request h = refl
from_code-code Message.resend_request h = refl
from_code-code Message.sequence_reset h = refl
from_code-code Message.logout h = refl
from_code-code Message.new_order_single h = refl
from_code-code Message.execution_report h = refl
from_code-code (Message.other s) h = h s refl

pub code-from_code : (s : Text) → code (from_code s) ≡ s
unfolding from_code code
code-from_code s = ground (
  arith,
  text_beq_iff s (codes "A"),
  text_beq_iff s (codes "0"),
  text_beq_iff s (codes "1"),
  text_beq_iff s (codes "2"),
  text_beq_iff s (codes "4"),
  text_beq_iff s (codes "5"),
  text_beq_iff s (codes "D"),
  text_beq_iff s (codes "8"),
)

-- A number that is set is read back.
pub parsed-to_string : (n : ℕ) → n ≤ u64_max → parsed (some (to_string n)) ≡ some n
unfolding parsed
parsed-to_string n h = parse_uint-to_string u64_max n (omega arith) h
