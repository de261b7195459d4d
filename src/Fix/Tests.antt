-- ===== src/Fix/Tests.antt =====
-- The theorems on the FIX codec and session at concrete messages.
use atomr.Base.{
  ◌≡◌, refl, true, false, inr, some, none, [], ◌∷◌, arith, nat_beq, ltb, if◌then◌else◌, codes,
  parse_uint, parse_digits, valid_from, text_beq,
}
use atomr.Fix.Message.{
  FixMessage, of_type, new, set, put, get, find, get_u64, parsed, typed, msg_type, seq_num, code,
  from_code, is_admin,
}
use atomr.Fix.Message
use atomr.Fix.Message.Wire.{to_wire, parse}
use atomr.Fix.Message.Segments.{IsValue}
use atomr.Fix.Message.Parsed.{framed, parse-to_wire}
use atomr.Fix.Session.{FixSession, fix44, new_config, active}
use atomr.Fix.Session.Inbound.{handle_inbound, is_logon, is_seq_reset, is_reset_logon}
use atomr.Fix.Session.Numbered.{is_exempt, IsPlain}
use atomr.Fix.Session.Order.{after, surfaced, Ascends, surfaced-Ascends, application_lem}
use atomr.Fix.Session.Gaps.{exchange, InStep, gap_closed}

-- A new order with number 5.
abbrev order : FixMessage
order = record {
  fields =
      record { tag = 35; value = codes "D" }
      ∷ record { tag = 34; value = codes "5" }
      ∷ record { tag = 55; value = codes "AAPL" }
      ∷ [];
}

order-msg_type : msg_type order ≡ some Message.new_order_single
unfolding msg_type typed get find from_code text_beq
order-msg_type = refl

order-seq_num : seq_num order ≡ some 5
unfolding seq_num get_u64 parsed get find parse_uint parse_digits
order-seq_num = refl

order-is_exempt : is_exempt order ≡ false
unfolding is_exempt is_reset_logon is_logon is_seq_reset msg_type typed get find from_code text_beq
order-is_exempt = refl

parse-to_wire_example : parse (to_wire order) ≡ inr (framed order)
unfolding IsValue valid_from
parse-to_wire_example = parse-to_wire order (ground arith)

-- A session that is waiting for 5, and one that has missed 3 and 4.
abbrev waiting : FixSession
waiting = record {
  config = new_config fix44 (codes "A") (codes "B");
  store = record { out = 7; in_expected = 5 };
  state = active;
}

abbrev behind : FixSession
behind = record waiting { store = record { out = 7; in_expected = 3 } }

abbrev ahead : FixSession
ahead = record {
  config = new_config fix44 (codes "B") (codes "A");
  store = record { out = 6; in_expected = 7 };
  state = active;
}

order-IsPlain : IsPlain order 5
unfolding IsPlain is_logon is_seq_reset msg_type typed get find from_code text_beq
order-IsPlain = (order-seq_num, refl, refl, λ e. cc e)

-- The order twice: it is surfaced once.
surfaced-Ascends_example :
    Ascends 5
      (surfaced waiting ((0, order, 5) ∷ (1, order, 5) ∷ []))
      (after waiting ((0, order, 5) ∷ (1, order, 5) ∷ [])).store.in_expected
surfaced-Ascends_example =
    surfaced-Ascends waiting ((0, order, 5) ∷ (1, order, 5) ∷ [])
      ((order-IsPlain, omega arith), ((order-IsPlain, omega arith), tt))

application_lem_example :
    ((handle_inbound waiting 0 order).1.application
      ≡ (if nat_beq 5 waiting.store.in_expected then some order else none))
    × ((handle_inbound waiting 0 order).0.store.in_expected
        ≡ (if nat_beq 5 waiting.store.in_expected then 6 else waiting.store.in_expected))
    × ((handle_inbound waiting 0 order).1.gap_detected
        ≡ (if ltb waiting.store.in_expected 5 then some (waiting.store.in_expected, 5) else none))
    × ((handle_inbound waiting 0 order).1.ignored_duplicate ≡ ltb 5 waiting.store.in_expected)
unfolding is_admin
application_lem_example =
    application_lem waiting 0 order 5 Message.new_order_single order-msg_type refl order-seq_num
      (omega arith)

gap_closed_example : InStep (exchange behind ahead 0 order).0 (exchange behind ahead 0 order).1
gap_closed_example =
    gap_closed behind ahead 0 order 5 order-seq_num order-is_exempt (omega arith) (omega arith)
      (omega arith) (omega arith) refl

-- The peer's logon, with the reset flag.
abbrev reset_logon : FixMessage
reset_logon = record {
  fields =
      record { tag = 35; value = codes "A" }
      ∷ record { tag = 34; value = codes "1" }
      ∷ record { tag = 141; value = codes "Y" }
      ∷ [];
}

abbrev initiator : FixSession
initiator = record waiting {
  config = record (new_config fix44 (codes "A") (codes "B")) { reset_on_logon = true };
}

-- A request for what is from 1 up to 9, of which 5 has been sent.
abbrev bounded_request : FixMessage
bounded_request = record {
  fields =
      record { tag = 35; value = codes "2" }
      ∷ record { tag = 34; value = codes "7" }
      ∷ record { tag = 7; value = codes "1" }
      ∷ record { tag = 16; value = codes "9" }
      ∷ [];
}
