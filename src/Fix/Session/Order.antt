-- ===== src/Fix/Session/Order.antt =====
-- A run of numbered messages: what is surfaced, and in which order.
use atomr.Base.{
  ℕ, ◌+◌, ◌<◌, ◌≤◌, ◌≡◌, inl, inr, refl, subst, ap, ◌∙◌, true, false, ltb, ltb→lt, nat_beq,
  if◌then◌else◌, Bool-cases, Option, none, some, List, [], ◌∷◌, arith, All,
}
use atomr.Fix.Message.{FixMessage, MsgType, seq_num, msg_type, is_admin, u64_max}
use atomr.Fix.Message
use atomr.Fix.SeqStore.{next_out, observed_in, saturating_suc}
use atomr.Fix.Session.{FixSession, build_resend_request, finalize_outbound}
use atomr.Fix.Session.Inbound.{
  handle_inbound, InboundOutcome, dispatch, observed, quiet, is_logon, is_seq_reset,
}
use atomr.Fix.Session.Numbered.{
  IsPlain, Steps, handle_inbound-Steps, plain-is_exempt, above_expected, below_expected,
  as_expected,
}

-- The session after the messages, each with the time at which it comes and its number.
unfoldable pub after : FixSession → List (ℕ × FixMessage × ℕ) → FixSession
after s [] = s
after s ((now, m, n) ∷ ms) = after (handle_inbound s now m).0 ms

unfoldable pub with_number : Option FixMessage → ℕ → List ℕ → List ℕ
with_number none n l = l
with_number (some m) n l = n ∷ l

-- The numbers of the messages that are surfaced to the application.
unfoldable pub surfaced : FixSession → List (ℕ × FixMessage × ℕ) → List ℕ
surfaced s [] = []
surfaced s ((now, m, n) ∷ ms) =
    with_number (handle_inbound s now m).1.application n (surfaced (handle_inbound s now m).0 ms)

-- Strictly ascending, from `lo` on and below `hi`.
unfoldable pub Ascends : ℕ → List ℕ → ℕ → Type 0
Ascends lo [] hi = lo ≤ hi
Ascends lo (n ∷ l) hi = (lo ≤ n) × Ascends (n + 1) l hi

abbrev pub IsPlainArrival : ℕ × FixMessage × ℕ → Type 0
IsPlainArrival (now, m, n) = IsPlain m n × (n < u64_max)

lower : (lo mid hi : ℕ) (l : List ℕ) → lo ≤ mid → Ascends mid l hi → Ascends lo l hi
unfolding Ascends
lower lo mid hi [] h a = omega (arith, h, a)
lower lo mid hi (n ∷ l) h a = (omega (arith, h, a.0), a.1)

with_number-Ascends :
    (s : FixSession) (m : FixMessage) (n hi : ℕ) (r : FixSession × InboundOutcome) (l : List ℕ)
    → Steps s m n r
    → Ascends r.0.store.in_expected l hi
    → Ascends s.store.in_expected (with_number r.1.application n l) hi
unfolding Steps with_number Ascends
with_number-Ascends s m n hi r l (inl (e, o)) a = rw o (lower _ _ hi l (omega (arith, e)) a)
with_number-Ascends s m n hi r l (inr (q, e, inl o)) a =
    rw o (lower _ _ hi l (omega (arith, q, e)) a)
with_number-Ascends s m n hi r l (inr (q, e, inr o)) a =
    rw o (omega (arith, q), subst (λ k. Ascends k l hi) e a)

-- Whatever numbered messages come, logons and sequence resets apart, in whatever order and however
-- often: those that are surfaced have strictly ascending numbers, from the one that was expected to
-- below the one that is then. So none is surfaced twice or after a later one.
pub surfaced-Ascends :
    (s : FixSession) (ms : List (ℕ × FixMessage × ℕ))
    → All IsPlainArrival ms
    → Ascends s.store.in_expected (surfaced s ms) (after s ms).store.in_expected
unfolding after surfaced
surfaced-Ascends s [] h = unfold Ascends in (omega arith)
surfaced-Ascends s ((now, m, n) ∷ ms) h =
    with_number-Ascends s m n (after (handle_inbound s now m).0 ms).store.in_expected
      (handle_inbound s now m) (surfaced (handle_inbound s now m).0 ms)
      (handle_inbound-Steps s now m n h.0.0 h.0.1)
      (surfaced-Ascends (handle_inbound s now m).0 ms h.1)

app_dispatch :
    (s : FixSession) (now : ℕ) (m : FixMessage) (n : ℕ) (t : MsgType)
    → is_admin t ≡ false
    → dispatch s now m (some n) (some t)
      ≡ (observed s (some n), record quiet { application = some m })
unfolding dispatch is_admin
app_dispatch s now m n Message.logon h = absurd (ground arith)
app_dispatch s now m n Message.heartbeat h = absurd (ground arith)
app_dispatch s now m n Message.test_request h = absurd (ground arith)
app_dispatch s now m n Message.resend_request h = absurd (ground arith)
app_dispatch s now m n Message.sequence_reset h = absurd (ground arith)
app_dispatch s now m n Message.logout h = absurd (ground arith)
app_dispatch s now m n Message.new_order_single h = refl
app_dispatch s now m n Message.execution_report h = refl
app_dispatch s now m n (Message.other code) h = refl

app_plain :
    (t : MsgType)
    → is_admin t ≡ false
    → (is_logon (some t) ≡ false) × (is_seq_reset (some t) ≡ false)
unfolding is_admin is_logon is_seq_reset
app_plain Message.logon h = absurd (ground arith)
app_plain Message.heartbeat h = (refl, refl)
app_plain Message.test_request h = (refl, refl)
app_plain Message.resend_request h = (refl, refl)
app_plain Message.sequence_reset h = absurd (ground arith)
app_plain Message.logout h = (refl, refl)
app_plain Message.new_order_single h = (refl, refl)
app_plain Message.execution_report h = (refl, refl)
app_plain (Message.other code) h = (refl, refl)

pub app-IsPlain :
    (m : FixMessage) (n : ℕ) (t : MsgType)
    → msg_type m ≡ some t
    → is_admin t ≡ false
    → seq_num m ≡ some n
    → IsPlain m n
unfolding IsPlain
app-IsPlain m n t e h k = let (l, r) = app_plain t h in (k, rw e l, rw e r, λ z. cc (e, z))

-- A numbered application message is surfaced if it carries the expected number, which then is the
-- next; with a greater number it is not surfaced but a gap is reported from the expected number on,
-- and with a smaller one it is ignored.
pub application_lem :
    (s : FixSession) (now : ℕ) (m : FixMessage) (n : ℕ) (t : MsgType)
    → msg_type m ≡ some t
    → is_admin t ≡ false
    → seq_num m ≡ some n
    → n < u64_max
    → ((handle_inbound s now m).1.application
        ≡ (if nat_beq n s.store.in_expected then some m else none))
      × ((handle_inbound s now m).0.store.in_expected
          ≡ (if nat_beq n s.store.in_expected then n + 1 else s.store.in_expected))
      × ((handle_inbound s now m).1.gap_detected
          ≡ (if ltb s.store.in_expected n then some (s.store.in_expected, n) else none))
      × ((handle_inbound s now m).1.ignored_duplicate ≡ ltb n s.store.in_expected)
unfolding build_resend_request finalize_outbound next_out observed observed_in saturating_suc
application_lem s now m n t e h k b =
    let plain = app-IsPlain m n t e h k in
    let exempt = plain-is_exempt m n plain in
    elim (Bool-cases (ltb s.store.in_expected n)) [
      | inl y ↦
          let above = ltb→lt s.store.in_expected n y in
          rw (above_expected s now m n k exempt above, y)
            (ground arith, ground arith, refl, ground arith)
      | inr y ↦ elim (Bool-cases (ltb n s.store.in_expected)) [
        | inl z ↦
            let below = ltb→lt n s.store.in_expected z in
            rw (below_expected s now m n k exempt below, y, z)
              (ground arith, ground arith, refl, refl)
        | inr z ↦
            let same : (n ≡ s.store.in_expected) = ground arith in
            let equal : (nat_beq n s.store.in_expected ≡ true) = ground arith in
            let w =
              as_expected s now m n k exempt same
              ∙ ap (λ o. dispatch s now m (some n) o) e
              ∙ app_dispatch s now m n t h in
            rw (w, y, z, equal) (refl, omega (arith, same, b), refl, refl)
      ]
    ]
