-- ===== src/Remote/AckedDelivery/Loss.antt =====
-- What reliable delivery promises: nothing unseen is given up, nothing is delivered twice, and no
-- more is in flight than the capacity.
use atomr.Base.{
  ℕ, suc, ◌<◌, ◌≤◌, ◌≡◌, min, false, ◌⊎◌, List, [], ◌∷◌, arith, nat_eq, nat_beq_iff, ltb, nat_beq,
  ap, All, if◌then◌else◌, u64_mod, inl, inr,
}
use atomr.Map.{get, size, get-retain, size-retain, size-insert}
use atomr.Remote.AckedDelivery.{
  AckedSendBuffer, AckInfo, AckedReceiveBuffer, observe, ack, apply_ack, push, is_full,
}
use atomr.Remote.AckedDelivery.Receive.{seen, IsValid, observe-Sees, observe-IsValid}

-- An acknowledgement takes out of the send buffer only what the receiver has seen: what it has not
-- stays pending as it was.
pub unseen_stays_pending :
    {Envelope : Type 0} (b : AckedSendBuffer Envelope) (r : AckedReceiveBuffer) (n : ℕ)
    → seen r n ≡ false
    → get (apply_ack b (ack r)).pending n ≡ get b.pending n
unfolding apply_ack ack seen
unseen_stays_pending b r n h = ground (arith, get-retain (λ seq. ltb r.cumulative seq) b.pending n)

-- No more envelopes are in flight than the capacity.
unfoldable pub IsWithin : {Envelope : Type 0} → AckedSendBuffer Envelope → Type 0
IsWithin b = size b.pending ≤ b.capacity

-- The buffer that a push leaves: the same where the envelope comes back.
abbrev pub after :
    {Envelope : Type 0}
    → AckedSendBuffer Envelope
    → Envelope ⊎ AckedSendBuffer Envelope
    → AckedSendBuffer Envelope
after b (inl env) = b
after b (inr c) = c

-- The envelopes in flight stay within the capacity under pushes and acknowledgements.
pub push-IsWithin :
    {Envelope : Type 0} (b : AckedSendBuffer Envelope) (seq_no : ℕ) (env : Envelope) (a : AckInfo)
    → IsWithin b
    → IsWithin (after b (push b seq_no env)) × IsWithin (apply_ack b a)
unfolding push is_full apply_ack IsWithin
push-IsWithin b seq_no env a h = ground (
  arith,
  size-insert b.pending seq_no env,
  size-retain (λ seq. ltb a.cumulative_ack seq) b.pending,
)

-- The numbers that the receiver delivers, of those that arrive in this order.
unfoldable pub deliver : AckedReceiveBuffer → List ℕ → List ℕ
deliver r [] = []
deliver r (k ∷ l) =
    let rest = deliver (observe r k).0 l in if (observe r k).1 then k ∷ rest else rest

unfoldable pub occurrences : ℕ → List ℕ → ℕ
occurrences n [] = 0
occurrences n (k ∷ l) = if nat_beq k n then suc (occurrences n l) else occurrences n l

-- However often a number arrives, and in whatever order, it is delivered once, and not at all if the
-- receiver had seen it before.
pub exactly_once :
    (r : AckedReceiveBuffer) (l : List ℕ) (n : ℕ)
    → IsValid r
    → All (λ k. k < u64_mod) l
    → occurrences n (deliver r l) ≡ (if seen r n then 0 else min 1 (occurrences n l))
unfolding deliver occurrences
exactly_once r [] n v w = ground arith
exactly_once r (k ∷ l) n v w =
    let s = observe-Sees r k n v w.0 in
    let rest = exactly_once (observe r k).0 l n (observe-IsValid r k v w.0) w.1 in
    let same : (k ≡ n → seen r k ≡ seen r n) = λ e. ap (λ i. seen r i) e in
    ground (arith, nat_beq_iff k n)
