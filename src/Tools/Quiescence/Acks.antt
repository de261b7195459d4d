-- ===== src/Tools/Quiescence/Acks.antt =====
-- Which acks a switch has after a run of PDUs.
use atomr.Base.{
  ℕ, ◌≡◌, refl, ap, inl, inr, ◌⊎◌, ◌↔◌, Bool, true, Option, none, some, List, [], ◌∷◌, arith,
  nat_beq, nat_beq_iff, if◌then◌else◌, Bool-cases, Text, text_eq, text_beq, ◌&&◌, text_beq_iff,
  nat_eq,
}
use atomr.Map
use atomr.Map.{Map}
use atomr.Tools.KillSwitch.{HaltReason, ClusterKillSwitch, engage_epoch}
use atomr.Tools.Quiescence.{HaltPdu, halt, ack, collect_local, has_acked, acks_at, apply_pdu}

-- PDUs, one after the other.
unfoldable pub absorb : (in_time : ℕ → Bool) → ClusterKillSwitch → List HaltPdu → ClusterKillSwitch
absorb in_time s [] = s
absorb in_time s (pdu ∷ l) = absorb in_time (apply_pdu in_time s pdu).1 l

-- An ack of `p` for the epoch `at` is among the PDUs.
unfoldable pub Came : Text → ℕ → List HaltPdu → Type 0
Came p at [] = ⊥
Came p at (pdu ∷ l) = (pdu ≡ ack p at) ⊎ Came p at l

abbrev pub acked : ClusterKillSwitch → ℕ → Text → Bool
acked s at p = has_acked (Map.get s.remote_acks at) p

acks_at-acked :
    (o : Option (Map Text (Unit {0}))) (p : Text)
    → Map.is_some (Map.get (acks_at o) p) ≡ has_acked o p
unfolding acks_at has_acked
acks_at-acked none p = rw (Map.get-empty {K = Text} {V = Unit {0}} p) refl
acks_at-acked (some set) p = refl

added :
    (o : Option (Map Text (Unit {0}))) (sender p : Text)
    → has_acked (some (Map.insert (acks_at o) sender tt)) p
      ≡ (if text_beq sender p then true else has_acked o p)
unfolding has_acked
added o sender p =
    rw (Map.get-insert (acks_at o) sender tt p) (elim (Bool-cases (text_beq sender p)) [
      | inl e ↦ rw e refl
      | inr e ↦ rw e (acks_at-acked o p)
    ])

one_ack :
    (in_time : ℕ → Bool) (s : ClusterKillSwitch) (sender p : Text) (e at : ℕ)
    → acked (apply_pdu in_time s (ack sender e)).1 at p
      ≡ (if nat_beq e at && text_beq sender p then true else acked s at p)
unfolding apply_pdu
one_ack in_time s sender p e at =
    let more = Map.insert (acks_at (Map.get s.remote_acks e)) sender tt in
    rw (Map.get-insert s.remote_acks e more at) (elim (Bool-cases (nat_beq e at)) [
      | inl t ↦
          let same : e ≡ at = (nat_beq_iff e at).0 t in
          rw (t, same) (added (Map.get s.remote_acks at) sender p)
      | inr t ↦ rw t refl
    ])

one_halt :
    (in_time : ℕ → Bool) (s : ClusterKillSwitch) (sender p : Text) (e at : ℕ) (reason : HaltReason)
    → acked (apply_pdu in_time s (halt sender e reason)).1 at p ≡ acked s at p
unfolding apply_pdu collect_local engage_epoch
one_halt in_time s sender p e at reason = refl

abbrev pdu_sender : HaltPdu → Text
pdu_sender (halt sender e reason) = sender
pdu_sender (ack sender e) = sender

abbrev pdu_epoch : HaltPdu → ℕ
pdu_epoch (halt sender e reason) = e
pdu_epoch (ack sender e) = e

not_halt : (sender p : Text) (e at : ℕ) (reason : HaltReason) → ¬ (halt sender e reason ≡ ack p at)
not_halt sender p e at reason h = cc h

pub acked-absorb :
    (in_time : ℕ → Bool) (l : List HaltPdu) (s : ClusterKillSwitch) (at : ℕ) (p : Text)
    → (acked (absorb in_time s l) at p ≡ true) ↔ ((acked s at p ≡ true) ⊎ Came p at l)
unfolding absorb Came
acked-absorb in_time [] s at p = (inl, λ h. elim h [ inl a ↦ a | inr c ↦ absurd c ])
acked-absorb in_time (halt sender e reason ∷ l) s at p =
    let rest = acked-absorb in_time l (apply_pdu in_time s (halt sender e reason)).1 at p in
    let same = one_halt in_time s sender p e at reason in
    (
      λ h. elim (rest.0 h) [ inl a ↦ inl (cc (a, same)) | inr c ↦ inr (inr c) ],
      λ h. elim h [
        | inl a ↦ rest.1 (inl (cc (a, same)))
        | inr (inl c) ↦ absurd (not_halt sender p e at reason c)
        | inr (inr c) ↦ rest.1 (inr c)
      ],
    )
acked-absorb in_time (ack sender e ∷ l) s at p =
    let rest = acked-absorb in_time l (apply_pdu in_time s (ack sender e)).1 at p in
    let one = one_ack in_time s sender p e at in
    elim (Bool-cases (nat_beq e at && text_beq sender p)) [
      | inl t ↦
          let these : ack sender e ≡ ack p at =
            cc ((nat_beq_iff e at).0 (ground arith), (text_beq_iff sender p).0 (ground arith)) in
          (λ h. inr (inl these), λ h. rest.1 (inl (ground (arith, one, t))))
      | inr t ↦
          let same : acked (apply_pdu in_time s (ack sender e)).1 at p ≡ acked s at p =
            ground arith in
          (
            λ h. elim (rest.0 h) [ inl a ↦ inl (cc (a, same)) | inr c ↦ inr (inr c) ],
            λ h. elim h [
              | inl a ↦ rest.1 (inl (cc (a, same)))
              | inr (inl c) ↦
                  let at_same : e ≡ at = ap pdu_epoch c in
                  let by_same : sender ≡ p = ap pdu_sender c in
                  absurd (ground (arith, nat_beq_iff e at, text_beq_iff sender p))
              | inr (inr c) ↦ rest.1 (inr c)
            ],
          )
    ]
