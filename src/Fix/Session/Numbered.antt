-- ===== src/Fix/Session/Numbered.antt =====
-- What a session does with one message, by its number.
use atomr.Base.{
  ℕ, ◌+◌, ◌<◌, ◌≡◌, ◌≢◌, ◌⊎◌, inl, inr, refl, ◌∙◌, max, Bool, true, false, ◌||◌, Option, none, some,
  arith, ltb, ltb→lt, Bool-cases,
}
use atomr.Fix.Message.{FixMessage, MsgType, seq_num, msg_type, is_admin, u64_max}
use atomr.Fix.Message
use atomr.Fix.SeqStore.{observed_in, saturating_suc, current_in, next_out}
use atomr.Fix.Session.{
  FixSession, SessionState, disconnected, logon_sent, active, logout_sent, finalize_outbound,
  build_logout, build_heartbeat, build_resend_request,
}
use atomr.Fix.Session.Inbound.{
  handle_inbound, handle_numbered, sequenced, dispatch, observed, is_seq_reset, is_logon,
  is_reset_logon, on_resend_request, on_logout, on_test_request, quiet, reply, InboundOutcome,
}

-- A message whose number is not looked at.
unfoldable pub is_exempt : FixMessage → Bool
is_exempt m = is_seq_reset (msg_type m) || is_reset_logon m

module _ (s : FixSession) (now : ℕ) (m : FixMessage) (n : ℕ) (number : seq_num m ≡ some n)
    (plain : is_exempt m ≡ false) where
  numbered : handle_inbound s now m ≡ sequenced s now m n
  unfolding handle_inbound handle_numbered is_exempt
  numbered = rw (number, plain) refl

  pub above_expected :
      s.store.in_expected < n
      → handle_inbound s now m ≡ (
        (build_resend_request s now s.store.in_expected 0).0,
        record (reply (build_resend_request s now s.store.in_expected 0).1) {
          gap_detected = some (s.store.in_expected, n);
        },
      )
  unfolding sequenced current_in
  above_expected h = numbered ∙ ground arith

  pub below_expected :
      n < s.store.in_expected
      → handle_inbound s now m ≡ (s, record quiet { ignored_duplicate = true })
  unfolding sequenced current_in
  below_expected h = numbered ∙ ground arith

  pub as_expected :
      n ≡ s.store.in_expected → handle_inbound s now m ≡ dispatch s now m (some n) (msg_type m)
  unfolding sequenced current_in
  as_expected h = numbered ∙ ground arith

-- What `dispatch` does to the expected number, and what it surfaces.
Advances : FixSession → FixMessage → ℕ → FixSession × InboundOutcome → Type 0
Advances s m n r =
    (r.0.store.in_expected ≡ max s.store.in_expected (saturating_suc n))
    × ((r.1.application ≡ none) ⊎ (r.1.application ≡ some m))

on_logout-Advances :
    (s : FixSession) (now : ℕ) (m : FixMessage) (n : ℕ) (state : SessionState)
    → s.state ≡ state
    → Advances s m n (on_logout (observed s (some n)) now)
unfolding on_logout build_logout finalize_outbound next_out observed observed_in Advances
on_logout-Advances s now m n disconnected e = rw e (refl, inl refl)
on_logout-Advances s now m n logon_sent e = rw e (refl, inl refl)
on_logout-Advances s now m n active e = rw e (refl, inl refl)
on_logout-Advances s now m n logout_sent e = rw e (refl, inl refl)

dispatch-Advances :
    (s : FixSession) (now : ℕ) (m : FixMessage) (n : ℕ) (t : Option MsgType)
    → is_logon t ≡ false
    → is_seq_reset t ≡ false
    → t ≢ none
    → Advances s m n (dispatch s now m (some n) t)
unfolding dispatch observed observed_in is_logon is_seq_reset on_test_request build_heartbeat
    finalize_outbound next_out on_resend_request Advances
dispatch-Advances s now m n (some Message.logon) l r p = absurd (ground arith)
dispatch-Advances s now m n (some Message.heartbeat) l r p = (refl, inl refl)
dispatch-Advances s now m n (some Message.test_request) l r p = (refl, inl refl)
dispatch-Advances s now m n (some Message.resend_request) l r p = (refl, inl refl)
dispatch-Advances s now m n (some Message.sequence_reset) l r p = absurd (ground arith)
dispatch-Advances s now m n (some Message.logout) l r p = on_logout-Advances s now m n s.state refl
dispatch-Advances s now m n (some Message.new_order_single) l r p = (refl, inr refl)
dispatch-Advances s now m n (some Message.execution_report) l r p = (refl, inr refl)
dispatch-Advances s now m n (some (Message.other code)) l r p = (refl, inr refl)
dispatch-Advances s now m n none l r p = absurd (p refl)

-- A numbered message that is neither a logon nor a sequence reset.
unfoldable pub IsPlain : FixMessage → ℕ → Type 0
IsPlain m n =
    (seq_num m ≡ some n)
    × (is_logon (msg_type m) ≡ false)
    × (is_seq_reset (msg_type m) ≡ false)
    × (msg_type m ≢ none)

pub plain-is_exempt : (m : FixMessage) (n : ℕ) → IsPlain m n → is_exempt m ≡ false
unfolding IsPlain is_exempt is_reset_logon
plain-is_exempt m n p = ground (arith, p.1, p.2)

-- The expected number moves only for a message that carries it, and only such a message can be
-- surfaced.
unfoldable pub Steps : FixSession → FixMessage → ℕ → FixSession × InboundOutcome → Type 0
Steps s m n r =
    ((r.0.store.in_expected ≡ s.store.in_expected) × (r.1.application ≡ none))
    ⊎ ((n ≡ s.store.in_expected)
        × (r.0.store.in_expected ≡ n + 1)
        × ((r.1.application ≡ none) ⊎ (r.1.application ≡ some m)))

pub handle_inbound-Steps :
    (s : FixSession) (now : ℕ) (m : FixMessage) (n : ℕ)
    → IsPlain m n
    → n < u64_max
    → Steps s m n (handle_inbound s now m)
unfolding IsPlain Steps Advances build_resend_request finalize_outbound next_out saturating_suc
handle_inbound-Steps s now m n p b = elim (Bool-cases (ltb s.store.in_expected n)) [
  | inl above ↦
      rw (above_expected s now m n p.0 (plain-is_exempt m n p) (ltb→lt s.store.in_expected n above))
        (inl (refl, refl))
  | inr y ↦ elim (Bool-cases (ltb n s.store.in_expected)) [
    | inl below ↦
        rw
          (below_expected s now m n p.0 (plain-is_exempt m n p)
            (ltb→lt n s.store.in_expected below))
          (inl (refl, refl))
    | inr z ↦
        let e : (n ≡ s.store.in_expected) = ground arith in
        let (a, o) = dispatch-Advances s now m n (msg_type m) p.1 p.2 p.3 in
        rw (as_expected s now m n p.0 (plain-is_exempt m n p) e)
          (inr (e, a ∙ omega (arith, e, b), o))
  ]
]
