-- ===== src/Fix/Session/Gaps.antt =====
-- A gap that one session detects and the other fills.
use atomr.Base.{
  ◌+◌, nat_beq, ◌%◌, u64_mod, max, ℕ, ◌-◌, ◌<◌, ◌≤◌, ◌≡◌, refl, sym, ◌∙◌, true, false, Option, none,
  some, List, [], ◌∷◌, ◌++◌, arith,
}
use atomr.Fix.Tags
use atomr.Fix.Message.{FixMessage, seq_num, msg_type, get_u64, u64_max}
use atomr.Fix.Message
use atomr.Fix.SeqStore.{observed_in, saturating_suc, peek_out, next_out}
use atomr.Fix.Session.{FixSession, build_resend_request, build_gap_fill, finalize_outbound}
use atomr.Fix.Session.Inbound.{
  handle_inbound, handle_numbered, dispatch, observed, is_seq_reset, is_logon, is_reset_logon,
  on_resend_request, on_sequence_reset, quiet, reply,
}
use atomr.Fix.Session.Numbered.{is_exempt, above_expected, as_expected}
use atomr.Fix.Session.Built.{resend_request_lem, gap_fill_lem}

-- A session handles messages in order; its replies to all of them.
unfoldable pub handle_all : FixSession → ℕ → List FixMessage → FixSession × List FixMessage
handle_all s now [] = (s, [])
handle_all s now (m ∷ ms) =
    let (t, o) = handle_inbound s now m in
    let (u, replies) = handle_all t now ms in (u, o.outbound ++ replies)

-- `m` reaches `a`, what `a` replies reaches `b`, and what `b` replies to that reaches `a`.
unfoldable pub exchange : FixSession → FixSession → ℕ → FixMessage → FixSession × FixSession
exchange a b now m =
    let (a1, o) = handle_inbound a now m in
    let (b1, replies) = handle_all b now o.outbound in ((handle_all a1 now replies).0, b1)

-- Each session expects the number that the other sends next.
unfoldable pub InStep : FixSession → FixSession → Type 0
InStep a b = (a.store.in_expected ≡ b.store.out) × (b.store.in_expected ≡ a.store.out)

-- A resend request with the expected number, for everything from `begin` on.
pub request_handled :
    (b : FixSession) (now : ℕ) (m : FixMessage) (n begin : ℕ)
    → msg_type m ≡ some Message.resend_request
    → seq_num m ≡ some n
    → get_u64 m Tags.begin_seq_no ≡ some begin
    → get_u64 m Tags.end_seq_no ≡ some 0
    → n ≡ b.store.in_expected
    → handle_inbound b now m
      ≡ (observed b (some n), reply (build_gap_fill (observed b (some n)) now begin b.store.out))
unfolding dispatch on_resend_request peek_out observed observed_in is_exempt is_seq_reset
    is_reset_logon is_logon
request_handled b now m n begin t q f g e =
    as_expected b now m n q (rw t refl) e ∙ rw (t, f, g) refl

-- The same, up to a number.
pub bounded_request_handled :
    (b : FixSession) (now : ℕ) (m : FixMessage) (n begin end : ℕ)
    → msg_type m ≡ some Message.resend_request
    → seq_num m ≡ some n
    → get_u64 m Tags.begin_seq_no ≡ some begin
    → get_u64 m Tags.end_seq_no ≡ some end
    → 1 ≤ end
    → n ≡ b.store.in_expected
    → handle_inbound b now m ≡ (
      observed b (some n),
      reply
          (build_gap_fill (observed b (some n)) now begin (max ((end + 1) % u64_mod) b.store.out)),
    )
unfolding dispatch on_resend_request peek_out observed observed_in is_exempt is_seq_reset
    is_reset_logon is_logon
bounded_request_handled b now m n begin end t q f g h e =
    let limited : (nat_beq end 0 ≡ false) = ground arith in
    as_expected b now m n q (rw t refl) e ∙ rw (t, f, g, limited) refl

number-cases :
    (s : FixSession) (now : ℕ) (m : FixMessage) (o : Option ℕ)
    → is_seq_reset (msg_type m) ≡ true
    → handle_numbered s now m o ≡ dispatch s now m o (msg_type m)
unfolding handle_numbered
number-cases s now m none h = refl
number-cases s now m (some n) h = rw h refl

pub fill_handled :
    (s : FixSession) (now : ℕ) (m : FixMessage) (new : ℕ)
    → msg_type m ≡ some Message.sequence_reset
    → get_u64 m Tags.new_seq_no ≡ some new
    → 1 ≤ new
    → handle_inbound s now m ≡ (record s { store = observed_in s.store (new - 1) }, quiet)
unfolding handle_inbound dispatch on_sequence_reset is_seq_reset
fill_handled s now m new t f h =
    number-cases s now m (seq_num m) (rw t refl) ∙ rw (t, f) (ground arith)

module _ (a b : FixSession) (now : ℕ) (m : FixMessage) (n : ℕ) where
  exchanged :
      seq_num m ≡ some n
      → is_exempt m ≡ false
      → a.store.in_expected < n
      → n < b.store.out
      → b.store.out ≤ u64_max
      → a.store.out < u64_max
      → b.store.in_expected ≡ a.store.out
      → exchange a b now m ≡ (
        record (build_resend_request a now a.store.in_expected 0).0 {
          store =
              observed_in
                (build_resend_request a now a.store.in_expected 0).0.store
                (b.store.out - 1);
        },
        observed b (some a.store.out),
      )
  unfolding exchange handle_all
  exchanged q p g l h k e =
      let r = (build_resend_request a now a.store.in_expected 0).1 in
      let (rt, rq, rb, re) =
        resend_request_lem a now a.store.in_expected 0 (omega (arith, g, l, h)) (omega arith)
          (omega (arith, k)) in
      let b1 = observed b (some a.store.out) in
      let (ft, ff) = gap_fill_lem b1 now a.store.in_expected b.store.out h in
      rw
        (
          above_expected a now m n q p g,
          request_handled b now r a.store.out a.store.in_expected rt rq rb re (sym e),
          fill_handled (build_resend_request a now a.store.in_expected 0).0 now
              (build_gap_fill b1 now a.store.in_expected b.store.out) b.store.out ft ff
              (omega (arith, g, l)),
        )
        refl

-- A message from `b` shows `a` that it has missed some. Once `b` has had the resend request that `a`
-- then sends, and `a` the reply, each again expects the number that the other sends next.
pub gap_closed :
    (a b : FixSession) (now : ℕ) (m : FixMessage) (n : ℕ)
    → seq_num m ≡ some n
    → is_exempt m ≡ false
    → a.store.in_expected < n
    → n < b.store.out
    → b.store.out ≤ u64_max
    → a.store.out < u64_max
    → b.store.in_expected ≡ a.store.out
    → InStep (exchange a b now m).0 (exchange a b now m).1
unfolding InStep observed_in saturating_suc build_resend_request finalize_outbound next_out observed
gap_closed a b now m n q p g l h k e =
    rw (exchanged a b now m n q p g l h k e) (omega (arith, g, l, h), omega (arith, k, e))
