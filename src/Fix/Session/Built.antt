-- ===== src/Fix/Session/Built.antt =====
-- The fields of the messages that a session builds.
use atomr.Base.{
  ℕ, ◌≤◌, ◌≡◌, refl, ap, ◌∙◌, false, ◌||◌, some, arith, nat_beq, text_beq, codes, to_string,
}
use atomr.Fix.Tags
use atomr.Fix.Message.{
  FixMessage, MsgType, code, from_code, get, set, get_u64, seq_num, msg_type, of_type, typed,
  parsed, u64_max,
}
use atomr.Fix.Message
use atomr.Fix.Message.Fields.{get-set, parsed-to_string}
use atomr.Fix.SeqStore.{next_out}
use atomr.Fix.Session.{
  FixSession, FixSessionConfig, stamp, finalize_outbound, build_resend_request, build_gap_fill,
}

pub get-stamp_seq :
    (c : FixSessionConfig) (now seq : ℕ) (m : FixMessage)
    → get (stamp c now seq m) Tags.msg_seq_num ≡ some (to_string seq)
unfolding stamp
get-stamp_seq c now seq m = simp get-set refl

pub get-stamp :
    (c : FixSessionConfig) (now seq : ℕ) (m : FixMessage) (tag : ℕ)
    → (nat_beq 8 tag || nat_beq 49 tag || nat_beq 56 tag || nat_beq 34 tag || nat_beq 52 tag)
      ≡ false
    → get (stamp c now seq m) tag ≡ get m tag
unfolding stamp
get-stamp c now seq m tag h = simp get-set (ground arith)

pub seq_num-stamp :
    (c : FixSessionConfig) (now seq : ℕ) (m : FixMessage)
    → seq ≤ u64_max
    → seq_num (stamp c now seq m) ≡ some seq
unfolding seq_num get_u64
seq_num-stamp c now seq m h = ap parsed (get-stamp_seq c now seq m) ∙ parsed-to_string seq h

module _ (s : FixSession) (now begin end : ℕ) where
  pub resend_request_lem :
      begin ≤ u64_max
      → end ≤ u64_max
      → s.store.out ≤ u64_max
      → (msg_type (build_resend_request s now begin end).1 ≡ some Message.resend_request)
        × (seq_num (build_resend_request s now begin end).1 ≡ some s.store.out)
        × (get_u64 (build_resend_request s now begin end).1 Tags.begin_seq_no ≡ some begin)
        × (get_u64 (build_resend_request s now begin end).1 Tags.end_seq_no ≡ some end)
  unfolding build_resend_request finalize_outbound next_out msg_type get_u64 of_type typed code
      from_code text_beq
  resend_request_lem hb he ho =
      let m = (build_resend_request s now begin end).1 in
      let t : (get m Tags.msg_type ≡ some (codes "2")) =
        get-stamp s.config now s.store.out _ 35 refl ∙ simp get-set refl in
      let b : (get m Tags.begin_seq_no ≡ some (to_string begin)) =
        get-stamp s.config now s.store.out _ 7 refl ∙ simp get-set refl in
      let e : (get m Tags.end_seq_no ≡ some (to_string end)) =
        get-stamp s.config now s.store.out _ 16 refl ∙ simp get-set refl in
      (
        ap typed t,
        seq_num-stamp s.config now s.store.out _ ho,
        ap parsed b ∙ parsed-to_string begin hb,
        ap parsed e ∙ parsed-to_string end he,
      )

  pub gap_fill_lem :
      end ≤ u64_max
      → (msg_type (build_gap_fill s now begin end) ≡ some Message.sequence_reset)
        × (get_u64 (build_gap_fill s now begin end) Tags.new_seq_no ≡ some end)
  unfolding build_gap_fill msg_type get_u64 of_type typed code from_code text_beq
  gap_fill_lem he =
      let m = build_gap_fill s now begin end in
      let t : (get m Tags.msg_type ≡ some (codes "4")) =
        get-stamp s.config now begin _ 35 refl ∙ simp get-set refl in
      let n : (get m Tags.new_seq_no ≡ some (to_string end)) =
        get-stamp s.config now begin _ 36 refl ∙ simp get-set refl in
      (ap typed t, ap parsed n ∙ parsed-to_string end he)
