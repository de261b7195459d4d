-- ===== src/Tools/Quiescence/Report.antt =====
-- What the report of a wait says.
use atomr.Base.{
  ℕ, ◌+◌, ◌≤◌, ◌≡◌, refl, ap, ◌∙◌, inl, inr, ◌↔◌, Bool, true, false, Option, some, List, [], ◌∷◌,
  arith, ltb, nat_beq_iff, length, All, Text, text_eq, nat_eq,
}
use atomr.Map
use atomr.Map.{Map}
use atomr.Tools.KillSwitch.{
  ClusterKillSwitch, Guarded, epoch, epoch_register, epoch_key, engage_epoch,
}
use atomr.Tools.Quiescence.{
  HaltPdu, halt, ack, receivers, taken, count_acks, collect_local, has_acked, count_peers,
  remote_ack_count, waited, cleared, start_quiescence, report, apply_pdu,
}
use atomr.Tools.Quiescence.Acks.{absorb, Came, acked, acked-absorb}

-- Receivers that were taken are gone.
receivers-taken : (l : List Guarded) → receivers (taken l) ≡ []
unfolding receivers taken
receivers-taken [] = refl
receivers-taken (g ∷ l) = receivers-taken l

count_peers-le :
    (acks : Option (Map Text (Unit {0}))) (l : List Text) → count_peers acks l ≤ length l
unfolding count_peers
count_peers-le acks [] = omega arith
count_peers-le acks (p ∷ l) = ground (arith, count_peers-le acks l)

count_peers-All :
    (acks : Option (Map Text (Unit {0}))) (l : List Text)
    → (count_peers acks l ≡ length l) ↔ All (λ p. has_acked acks p ≡ true) l
unfolding count_peers
count_peers-All acks [] = (λ h. tt, λ h. refl)
count_peers-All acks (p ∷ l) = ground (arith, count_peers-All acks l, count_peers-le acks l)

count_acks-le : (in_time : ℕ → Bool) (l : List ℕ) → count_acks in_time l ≤ length l
unfolding count_acks
count_acks-le in_time [] = omega arith
count_acks-le in_time (rx ∷ l) = ground (arith, count_acks-le in_time l)

count_acks-All :
    (in_time : ℕ → Bool) (l : List ℕ)
    → (count_acks in_time l ≡ length l) ↔ All (λ rx. in_time rx ≡ true) l
unfolding count_acks
count_acks-All in_time [] = (λ h. tt, λ h. refl)
count_acks-All in_time (rx ∷ l) = ground (arith, count_acks-All in_time l, count_acks-le in_time l)

transport-absorb :
    (in_time : ℕ → Bool) (l : List HaltPdu) (s : ClusterKillSwitch)
    → (absorb in_time s l).transport ≡ s.transport
unfolding absorb apply_pdu collect_local engage_epoch
transport-absorb in_time [] s = refl
transport-absorb in_time (halt sender e reason ∷ l) s =
    transport-absorb in_time l (apply_pdu in_time s (halt sender e reason)).1
transport-absorb in_time (ack sender e ∷ l) s =
    transport-absorb in_time l (apply_pdu in_time s (ack sender e)).1

-- Before the wait no peer that is waited for has acked.
none_acked :
    (in_time : ℕ → Bool) (s : ClusterKillSwitch) (q : Text) (peers : List Text) (p : Text)
    → acked (cleared (q ∷ peers) (collect_local in_time s).1) (epoch s) p ≡ false
unfolding cleared collect_local has_acked epoch epoch_register epoch_key
none_acked in_time s q peers p =
    let here : Map.get (Map.insert s.remote_acks (epoch s) (Map.empty {V = Unit {0}})) (epoch s)
        ≡ some Map.empty =
      ground (
        arith,
        Map.get-insert s.remote_acks (epoch s) (Map.empty {V = Unit {0}}) (epoch s),
        nat_beq_iff (epoch s) (epoch s),
      ) in
    rw here (rw (Map.get-empty {K = Text} {V = Unit {0}} p) refl)

All-map : (P Q : Text → Type 0) (l : List Text) → ((p : Text) → P p → Q p) → All P l → All Q l
All-map P Q [] f h = tt
All-map P Q (p ∷ l) f h = (f p h.0, All-map P Q l f h.1)

transport-cleared :
    (peers : List Text) (s : ClusterKillSwitch) → (cleared peers s).transport ≡ s.transport
unfolding cleared
transport-cleared [] s = refl
transport-cleared (p ∷ l) s = refl

both_full : (a b c d : ℕ) → a ≤ b → c ≤ d → (ltb (a + c) (b + d) ≡ false) ↔ ((a ≡ b) × (c ≡ d))
both_full a b c d h k = ground arith

All-counted :
    (in_time : ℕ → Bool) (rxs : List ℕ) (acks : Option (Map Text (Unit {0}))) (peers : List Text)
    → (ltb (count_acks in_time rxs + count_peers acks peers) (length rxs + length peers) ≡ false)
      ↔ (All (λ rx. in_time rx ≡ true) rxs × All (λ p. has_acked acks p ≡ true) peers)
All-counted in_time rxs acks peers =
    let full =
      both_full (count_acks in_time rxs) (length rxs) (count_peers acks peers) (length peers)
        (count_acks-le in_time rxs) (count_peers-le acks peers) in
    let local = count_acks-All in_time rxs in
    let remote = count_peers-All acks peers in
    (λ h. (local.0 (full.0 h).0, remote.0 (full.0 h).1), λ h. full.1 (local.1 h.0, remote.1 h.1))

guarded-cleared :
    (peers : List Text) (s : ClusterKillSwitch) → (cleared peers s).guarded ≡ s.guarded
unfolding cleared
guarded-cleared [] s = refl
guarded-cleared (p ∷ l) s = refl

module _ (in_time later : ℕ → Bool) (s : ClusterKillSwitch) (l : List HaltPdu) where
  abbrev at_end : List Text → ClusterKillSwitch
  at_end peers = absorb later (cleared peers (collect_local in_time s).1) l

  -- Of the peers that are waited for, those have acked whose ack came.
  acked-Came :
      (peers : List Text)
      → All (λ p. acked (at_end peers) (epoch s) p ≡ true) peers
        ↔ All (λ p. Came p (epoch s) l) peers
  acked-Came [] = (λ h. tt, λ h. tt)
  acked-Came (q ∷ peers) =
      let before = cleared (q ∷ peers) (collect_local in_time s).1 in
      (
        All-map (λ p. acked (at_end (q ∷ peers)) (epoch s) p ≡ true) (λ p. Came p (epoch s) l)
            (q ∷ peers)
            (λ p h. elim ((acked-absorb later l before (epoch s) p).0 h) [
              | inl a ↦ absurd (cc (a, none_acked in_time s q peers p))
              | inr c ↦ c
            ]),
        All-map (λ p. Came p (epoch s) l) (λ p. acked (at_end (q ∷ peers)) (epoch s) p ≡ true)
            (q ∷ peers) (λ p c. (acked-absorb later l before (epoch s) p).1 (inr c)),
      )

-- The report of a wait says that it did not time out exactly when the receiver of every guarded party
-- that had one got its ack in time, and from every peer an ack for the epoch came after the start: acks
-- from before count for nothing, and halts that arrive meanwhile change nothing.
pub report-timed_out :
    (in_time later : ℕ → Bool) (s : ClusterKillSwitch) (l : List HaltPdu)
    → ((report
          (absorb later (start_quiescence in_time s).2 l)
          (epoch s)
          (start_quiescence in_time s).0).timed_out
        ≡ false)
      ↔ (All (λ rx. in_time rx ≡ true) (receivers s.guarded)
          × All (λ p. Came p (epoch s) l) (waited s.transport))
unfolding start_quiescence collect_local report remote_ack_count
report-timed_out in_time later s l =
    let peers = waited s.transport in
    let t = at_end in_time later s l peers in
    let same : waited t.transport ≡ peers = ap waited (
      transport-absorb later l (cleared peers (collect_local in_time s).1)
      ∙ transport-cleared peers (collect_local in_time s).1) in
    let counted =
      All-counted in_time (receivers s.guarded) (Map.get t.remote_acks (epoch s)) peers in
    let came = acked-Came in_time later s l peers in
    rw same (λ h. ((counted.0 h).0, came.0 (counted.0 h).1), λ h. counted.1 (h.0, came.1 h.1))

-- A second wait counts no guarded party, whoever has not acked: the first one took the receivers.
pub second_wait :
    (in_time later : ℕ → Bool) (s : ClusterKillSwitch)
    → (start_quiescence later (start_quiescence in_time s).2).0 ≡ (0, 0)
second_wait in_time later s =
    let same : receivers (cleared (waited s.transport) (collect_local in_time s).1).guarded ≡ [] =
      ap receivers (guarded-cleared (waited s.transport) (collect_local in_time s).1)
      ∙ (unfold collect_local in receivers-taken s.guarded) in
    unfold start_quiescence collect_local count_acks in
    ap (λ r. (count_acks later r, length r)) same
