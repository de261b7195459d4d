-- ===== src/Fix/Session.antt =====
-- crates/atomr-fix/src/session.rs: the session and the messages that it builds. The clock's reading,
-- in seconds, is an argument `now`.
pub mod Inbound
pub mod Built
pub mod Numbered
pub mod Order
pub mod Gaps
pub mod Resets
use atomr.Base.{ℕ, Bool, true, false, Option, none, some, if◌then◌else◌, Text, codes, to_string}
use atomr.Fix.Tags
use atomr.Fix.Message.{FixMessage, MsgType, of_type, set}
use atomr.Fix.Message
use atomr.Fix.SeqStore.{InMemorySeqStore, next_out, reset}
use atomr.Fix.Clock.{sending_time}

pub data FixVersion : Type 0 where
  fix42 : FixVersion
  fix44 : FixVersion
  fix50_sp2 : FixVersion

unfoldable pub begin_string : FixVersion → Text
begin_string fix42 = codes "FIX.4.2"
begin_string fix44 = codes "FIX.4.4"
begin_string fix50_sp2 = codes "FIXT.1.1"

unfoldable pub is_fixt : FixVersion → Bool
is_fixt fix42 = false
is_fixt fix44 = false
is_fixt fix50_sp2 = true

-- `heartbeat` is in seconds.
pub record FixSessionConfig : Type 0 where
  pub version : FixVersion
  pub sender_comp_id : Text
  pub target_comp_id : Text
  pub heartbeat : ℕ
  pub reset_on_logon : Bool

unfoldable pub new_config : FixVersion → Text → Text → FixSessionConfig
new_config version sender_comp_id target_comp_id = record {
  version = version;
  sender_comp_id = sender_comp_id;
  target_comp_id = target_comp_id;
  heartbeat = 30;
  reset_on_logon = false;
}

pub data SessionState : Type 0 where
  disconnected : SessionState
  logon_sent : SessionState
  active : SessionState
  logout_sent : SessionState

pub record FixSession : Type 0 where
  pub config : FixSessionConfig
  pub store : InMemorySeqStore
  pub state : SessionState

unfoldable pub new : FixSessionConfig → InMemorySeqStore → FixSession
new config store = record { config = config; store = store; state = disconnected }

-- The header fields, with a sequence number.
unfoldable pub stamp : FixSessionConfig → ℕ → ℕ → FixMessage → FixMessage
stamp config now seq msg =
    let m1 = set msg Tags.begin_string (begin_string config.version) in
    let m2 = set m1 Tags.sender_comp_id config.sender_comp_id in
    let m3 = set m2 Tags.target_comp_id config.target_comp_id in
    let m4 = set m3 Tags.msg_seq_num (to_string seq) in set m4 Tags.sending_time (sending_time now)

unfoldable pub finalize_outbound : FixSession → ℕ → FixMessage → FixSession × FixMessage
finalize_outbound s now msg =
    let (store, seq) = next_out s.store in (record s { store = store }, stamp s.config now seq msg)

unfoldable pub logon_fields : FixSessionConfig → FixMessage
logon_fields config =
    let m1 = set (of_type Message.logon) Tags.encrypt_method (codes "0") in
    let m2 = set m1 Tags.heart_bt_int (to_string config.heartbeat) in
    let m3 = if config.reset_on_logon then set m2 Tags.reset_seq_num_flag (codes "Y") else m2 in
    if is_fixt config.version then set m3 Tags.default_appl_ver_id (codes "9") else m3

unfoldable pub build_logon : FixSession → ℕ → FixSession × FixMessage
build_logon s now =
    let store = if s.config.reset_on_logon then reset s.store else s.store in
    let (t, out) = finalize_outbound (record s { store = store }) now (logon_fields s.config) in
    (record t { state = logon_sent }, out)

-- `msg.set(tag, v)` if there is a value.
unfoldable pub set_some : FixMessage → ℕ → Option Text → FixMessage
set_some m tag none = m
set_some m tag (some v) = set m tag v

unfoldable pub build_logout : FixSession → ℕ → Option Text → FixSession × FixMessage
build_logout s now reason =
    let (t, out) = finalize_outbound s now (set_some (of_type Message.logout) Tags.text reason) in
    (record t { state = logout_sent }, out)

unfoldable pub build_heartbeat : FixSession → ℕ → Option Text → FixSession × FixMessage
build_heartbeat s now test_req_id =
    finalize_outbound s now (set_some (of_type Message.heartbeat) Tags.test_req_id test_req_id)

unfoldable pub heartbeat : FixSession → ℕ → FixSession × FixMessage
heartbeat s now = build_heartbeat s now none

unfoldable pub build_resend_request : FixSession → ℕ → ℕ → ℕ → FixSession × FixMessage
build_resend_request s now begin end =
    let m1 = set (of_type Message.resend_request) Tags.begin_seq_no (to_string begin) in
    finalize_outbound s now (set m1 Tags.end_seq_no (to_string end))

unfoldable pub build_gap_fill : FixSession → ℕ → ℕ → ℕ → FixMessage
build_gap_fill s now begin_seq new_seq_no =
    let m1 = set (of_type Message.sequence_reset) Tags.gap_fill_flag (codes "Y") in
    let m2 = set m1 Tags.poss_dup_flag (codes "Y") in
    stamp s.config now begin_seq (set m2 Tags.new_seq_no (to_string new_seq_no))

unfoldable pub build_app_message : FixSession → ℕ → FixMessage → FixSession × FixMessage
build_app_message s now msg =
    let (store, seq) = next_out s.store in (record s { store = store }, stamp s.config now seq msg)
