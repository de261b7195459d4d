-- ===== src/Fix/Session/Inbound.antt =====
-- `FixSession::handle_inbound` of crates/atomr-fix/src/session.rs.
use atomr.Base.{
  ℕ, ◌+◌, ◌-◌, ◌%◌, max, Bool, true, false, ◌&&◌, ◌||◌, Option, none, some, List, [], ◌∷◌, ltb,
  nat_beq, if◌then◌else◌, Text, text_beq, codes, unwrap_or, u64_mod,
}
use atomr.Fix.Tags
use atomr.Fix.Message.{FixMessage, MsgType, get, get_u64, msg_type, seq_num}
use atomr.Fix.Message
use atomr.Fix.SeqStore.{peek_out, observed_in, current_in, reset}
use atomr.Fix.Session.{
  FixSession, disconnected, logon_sent, active, logout_sent, build_logon, build_logout,
  build_heartbeat, build_resend_request, build_gap_fill,
}

pub record InboundOutcome : Type 0 where
  pub outbound : List FixMessage
  pub application : Option FixMessage
  pub gap_detected : Option (ℕ × ℕ)
  pub ignored_duplicate : Bool

-- `InboundOutcome::default()`
abbrev pub quiet : InboundOutcome
quiet = record { outbound = []; application = none; gap_detected = none; ignored_duplicate = false }

abbrev pub reply : FixMessage → InboundOutcome
reply m = record quiet { outbound = m ∷ [] }

unfoldable pub is_reset_flag : Option Text → Bool
is_reset_flag none = false
is_reset_flag (some v) = text_beq v (codes "Y") || text_beq v (codes "y")

unfoldable pub is_seq_reset : Option MsgType → Bool
is_seq_reset (some Message.sequence_reset) = true
is_seq_reset t = false

unfoldable pub is_logon : Option MsgType → Bool
is_logon (some Message.logon) = true
is_logon t = false

unfoldable pub is_reset_logon : FixMessage → Bool
is_reset_logon msg = is_logon (msg_type msg) && is_reset_flag (get msg Tags.reset_seq_num_flag)

-- `if let Some(seq) = seq { self.store.observed_in(seq) }`
unfoldable pub observed : FixSession → Option ℕ → FixSession
observed s none = s
observed s (some seq) = record s { store = observed_in s.store seq }

unfoldable pub on_logon : FixSession → ℕ → Bool → Option ℕ → FixSession × InboundOutcome
on_logon s now is_reset seq =
    let store = if is_reset then reset s.store else s.store in
    let t = observed (record s { store = store }) seq in
    elim t.state [
      | logon_sent ↦ (record t { state = active }, quiet)
      | _ ↦ let (u, out) = build_logon t now in (record u { state = active }, reply out)
    ]

unfoldable pub on_resend_request : FixSession → ℕ → FixMessage → FixSession × InboundOutcome
on_resend_request s now msg =
    let begin = unwrap_or (get_u64 msg Tags.begin_seq_no) 1 in
    let end = unwrap_or (get_u64 msg Tags.end_seq_no) 0 in
    let next_out = peek_out s.store in
    let new_seq_no = if nat_beq end 0 then next_out else max ((end + 1) % u64_mod) next_out in
    (s, reply (build_gap_fill s now begin new_seq_no))

unfoldable pub on_sequence_reset : FixSession → Option ℕ → FixSession × InboundOutcome
on_sequence_reset s none = (s, quiet)
on_sequence_reset s (some new_seq) =
    if ltb new_seq 1
    then (s, quiet)
    else (record s { store = observed_in s.store (new_seq - 1) }, quiet)

unfoldable pub on_logout : FixSession → ℕ → FixSession × InboundOutcome
on_logout s now = elim s.state [
  | logout_sent ↦ (record s { state = disconnected }, quiet)
  | _ ↦ let (u, out) = build_logout s now none in (record u { state = disconnected }, reply out)
]

unfoldable pub on_test_request : FixSession → ℕ → FixMessage → FixSession × InboundOutcome
on_test_request s now msg =
    let (u, out) = build_heartbeat s now (get msg Tags.test_req_id) in (u, reply out)

-- The `match` on the message type.
unfoldable pub dispatch :
    FixSession → ℕ → FixMessage → Option ℕ → Option MsgType → FixSession × InboundOutcome
dispatch s now msg seq (some Message.logon) = on_logon s now (is_reset_logon msg) seq
dispatch s now msg seq (some Message.test_request) = on_test_request (observed s seq) now msg
dispatch s now msg seq (some Message.heartbeat) = (observed s seq, quiet)
dispatch s now msg seq (some Message.resend_request) = on_resend_request (observed s seq) now msg
dispatch s now msg seq (some Message.sequence_reset) =
    on_sequence_reset s (get_u64 msg Tags.new_seq_no)
dispatch s now msg seq (some Message.logout) = on_logout (observed s seq) now
dispatch s now msg seq (some Message.new_order_single) =
    (observed s seq, record quiet { application = some msg })
dispatch s now msg seq (some Message.execution_report) =
    (observed s seq, record quiet { application = some msg })
dispatch s now msg seq (some (Message.other code)) =
    (observed s seq, record quiet { application = some msg })
dispatch s now msg seq none = (s, record quiet { ignored_duplicate = true })

-- A message with a number that is checked against the expected one.
unfoldable pub sequenced : FixSession → ℕ → FixMessage → ℕ → FixSession × InboundOutcome
sequenced s now msg seq =
    let expected = current_in s.store in
    let (u, rr) = build_resend_request s now expected 0 in
    if ltb expected seq
    then (u, record (reply rr) { gap_detected = some (expected, seq) })
    else if ltb seq expected
    then (s, record quiet { ignored_duplicate = true })
    else dispatch s now msg (some seq) (msg_type msg)

unfoldable pub handle_numbered :
    FixSession → ℕ → FixMessage → Option ℕ → FixSession × InboundOutcome
handle_numbered s now msg none = dispatch s now msg none (msg_type msg)
handle_numbered s now msg (some seq) =
    if is_seq_reset (msg_type msg) || is_reset_logon msg
    then dispatch s now msg (some seq) (msg_type msg)
    else sequenced s now msg seq

unfoldable pub handle_inbound : FixSession → ℕ → FixMessage → FixSession × InboundOutcome
handle_inbound s now msg = handle_numbered s now msg (seq_num msg)
