-- ===== src/Fix/Session/Resets.antt =====
-- Resets and gap fills that leave the two sessions of a connection out of step.
use atomr.Base.{
  ℕ, ◌+◌, ◌-◌, ◌%◌, ◌<◌, ◌≤◌, ◌≡◌, refl, ap, ◌∙◌, max, true, false, Option, none, some, arith,
  u64_mod,
}
use atomr.Fix.Tags
use atomr.Fix.Message.{
  FixMessage, MsgType, seq_num, msg_type, is_admin, get, get_u64, typed, u64_max,
}
use atomr.Fix.Message
use atomr.Fix.SeqStore.{observed_in, saturating_suc, next_out, reset}
use atomr.Fix.Session.{
  FixSession, FixSessionConfig, logon_sent, build_logon, build_app_message, build_gap_fill,
  finalize_outbound, stamp,
}
use atomr.Fix.Session.Inbound.{
  handle_inbound, handle_numbered, dispatch, observed, is_seq_reset, is_reset_logon, on_logon,
  quiet,
}
use atomr.Fix.Session.Numbered.{below_expected, plain-is_exempt}
use atomr.Fix.Session.Built.{seq_num-stamp, get-stamp, gap_fill_lem}
use atomr.Fix.Session.Gaps.{fill_handled, bounded_request_handled, handle_all}
use atomr.Fix.Session.Order.{app-IsPlain}

logon_dispatch :
    (s : FixSession) (now : ℕ) (m : FixMessage) (o : Option ℕ)
    → msg_type m ≡ some Message.logon
    → is_reset_logon m ≡ true
    → handle_numbered s now m o ≡ on_logon s now true o
unfolding handle_numbered dispatch
logon_dispatch s now m none t r = rw (t, r) refl
logon_dispatch s now m (some n) t r = rw (t, r) (unfold is_seq_reset in refl)

reset_store :
    (s : FixSession) (now : ℕ) (o : Option ℕ)
    → s.state ≡ logon_sent
    → (on_logon s now true o).0.store.out ≡ 1
unfolding on_logon observed reset observed_in
reset_store s now none h = rw h refl
reset_store s now (some n) h = rw h refl

-- A session that resets on logon has its logon answered by one that carries the reset flag too.
-- Then its next message has number 1, the number that its logon had.
pub logon_number_reused :
    (s : FixSession) (now : ℕ) (m app : FixMessage)
    → s.config.reset_on_logon ≡ true
    → msg_type m ≡ some Message.logon
    → is_reset_logon m ≡ true
    → (seq_num (build_logon s now).1 ≡ some 1)
      × (seq_num (build_app_message (handle_inbound (build_logon s now).0 now m).0 now app).1
          ≡ some 1)
unfolding build_logon finalize_outbound next_out build_app_message handle_inbound reset
logon_number_reused s now m app r t f =
    let begun = (build_logon s now).0 in
    let after = (handle_inbound begun now m).0 in
    let e : (after.store.out ≡ 1) =
      ap (λ p. p.0.store.out) (logon_dispatch begun now m (seq_num m) t f)
      ∙ reset_store begun now (seq_num m) refl in
    (
      rw r (seq_num-stamp _ now 1 _ (omega arith)),
      ap (λ k. seq_num (stamp after.config now k app)) e
          ∙ seq_num-stamp after.config now 1 app (omega arith),
    )

same_type :
    (c : FixSessionConfig) (now seq : ℕ) (m : FixMessage)
    → msg_type (stamp c now seq m) ≡ msg_type m
unfolding msg_type
same_type c now seq m = ap typed (get-stamp c now seq m 35 refl)

overfilled_by :
    (a b : FixSession) (now : ℕ) (app : FixMessage) (begin end : ℕ) (t : MsgType)
    → msg_type app ≡ some t
    → is_admin t ≡ false
    → 1 ≤ end
    → b.store.out ≤ end
    → end < u64_max
    → (handle_inbound
        (handle_inbound a now
          (build_gap_fill b now begin (max ((end + 1) % u64_mod) b.store.out))).0
        now
        (build_app_message b now app).1).1
      ≡ record quiet { ignored_duplicate = true }
unfolding build_app_message next_out observed_in saturating_suc
overfilled_by a b now app begin end t e h l k j =
    let new = max ((end + 1) % u64_mod) b.store.out in
    let high : (new ≡ end + 1) = omega (arith, k, j) in
    let (ft, ff) = gap_fill_lem b now begin new (omega (arith, high, j)) in
    let out = stamp b.config now b.store.out app in
    let type : (msg_type out ≡ some t) = same_type b.config now b.store.out app ∙ e in
    let number = seq_num-stamp b.config now b.store.out app (omega (arith, k, j)) in
    let plain = plain-is_exempt out b.store.out (app-IsPlain out b.store.out t type h number) in
    rw (fill_handled a now (build_gap_fill b now begin new) new ft ff (omega (arith, high))) (
      ap (λ p. p.1)
        (below_expected (record a { store = observed_in a.store (new - 1) }) now out b.store.out
          number plain (omega (arith, high, k, j))))

-- A resend request up to a number that `b` has not reached is answered with a gap fill past it. Once
-- `a` has had that, it ignores the next application message of `b`.
pub overfilled :
    (a b : FixSession) (now : ℕ) (m app : FixMessage) (n begin end : ℕ) (t : MsgType)
    → msg_type m ≡ some Message.resend_request
    → seq_num m ≡ some n
    → n ≡ b.store.in_expected
    → get_u64 m Tags.begin_seq_no ≡ some begin
    → get_u64 m Tags.end_seq_no ≡ some end
    → msg_type app ≡ some t
    → is_admin t ≡ false
    → 1 ≤ end
    → b.store.out ≤ end
    → end < u64_max
    → (handle_inbound
        (handle_all a now (handle_inbound b now m).1.outbound).0
        now
        (build_app_message (handle_inbound b now m).0 now app).1).1
      ≡ record quiet { ignored_duplicate = true }
unfolding handle_all observed observed_in
overfilled a b now m app n begin end t y q x f g e h l k j =
    rw (bounded_request_handled b now m n begin end y q f g l x)
      (overfilled_by a (observed b (some n)) now app begin end t e h l k j)
