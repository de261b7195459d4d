-- ===== src/Remote/AckedDelivery.antt =====
-- crates/atomr-remote/src/acked_delivery.rs: the two buffers of reliable delivery. An envelope is what is stored
-- under its sequence number. Sequence numbers are `u64`.
pub mod Receive
pub mod Loss
use atomr.Base.{
  ℕ, zero, suc, ◌+◌, ◌%◌, Bool, true, false, ◌⊎◌, inl, inr, Option, none, some, List, [], ◌∷◌, Eq,
  nat_eq, ltb, leb, nat_beq, if◌then◌else◌, u64_mod,
}
use atomr.Map.{Map, get, empty, insert, remove, retain, size, is_some}

-- pdu.rs
pub record AckInfo : Type 0 where
  pub cumulative_ack : ℕ
  pub nacks : List ℕ

unfoldable pub advance : ℕ → ℕ
advance seq_no = (seq_no + 1) % u64_mod

-- `nacks` is in ascending order.
pub record AckedSendBuffer (Envelope : Type 0) : Type 0 where
  pub capacity : ℕ
  pub pending : Map ℕ Envelope
  pub nacks : List ℕ

-- `BTreeSet::insert`
unfoldable pub set_insert : ℕ → List ℕ → List ℕ
set_insert n [] = n ∷ []
set_insert n (m ∷ l) =
    let rest = set_insert n l in
    if nat_beq n m then m ∷ l else if ltb n m then n ∷ m ∷ l else m ∷ rest

unfoldable pub set_extend : List ℕ → List ℕ → List ℕ
set_extend s [] = s
set_extend s (n ∷ l) = set_extend (set_insert n s) l

module _ {Envelope : Type 0} where
  unfoldable pub new_send : ℕ → AckedSendBuffer Envelope
  new_send capacity = record { capacity = capacity; pending = empty; nacks = [] }

  unfoldable pub is_full : AckedSendBuffer Envelope → Bool
  is_full b = leb b.capacity (size b.pending)

  -- The envelope comes back from a full buffer.
  unfoldable pub push :
      AckedSendBuffer Envelope → ℕ → Envelope → Envelope ⊎ AckedSendBuffer Envelope
  push b seq_no env =
      if is_full b then inl env else inr (record b { pending = insert b.pending seq_no env })

  unfoldable pub apply_ack : AckedSendBuffer Envelope → AckInfo → AckedSendBuffer Envelope
  apply_ack b ack = record b {
    pending = retain (λ seq. ltb ack.cumulative_ack seq) b.pending;
    nacks = set_extend b.nacks ack.nacks;
  }

  unfoldable pub resent : Map ℕ Envelope → List ℕ → List Envelope
  resent pending [] = []
  resent pending (seq ∷ l) = elim (get pending seq) [
    | none ↦ resent pending l
    | some env ↦ env ∷ resent pending l
  ]

  unfoldable pub drain_resend : AckedSendBuffer Envelope → AckedSendBuffer Envelope × List Envelope
  drain_resend b = (record b { nacks = [] }, resent b.pending b.nacks)

pub record AckedReceiveBuffer : Type 0 where
  pub cumulative : ℕ
  pub delivered : Map ℕ (Unit {0})

unfoldable pub new_receive : AckedReceiveBuffer
new_receive = record { cumulative = 0; delivered = empty }

-- The watermark advanced over a contiguous run. Each round takes a number out of `delivered`, so one
-- round for each is enough.
unfoldable pub settle : ℕ → ℕ → Map ℕ (Unit {0}) → AckedReceiveBuffer
settle zero cumulative delivered = record { cumulative = cumulative; delivered = delivered }
settle (suc fuel) cumulative delivered =
    let next = (cumulative + 1) % u64_mod in
    let rest = settle fuel next (remove delivered next) in
    if is_some (get delivered next)
    then rest
    else record { cumulative = cumulative; delivered = delivered }

unfoldable pub observe : AckedReceiveBuffer → ℕ → AckedReceiveBuffer × Bool
observe r seq_no =
    if leb seq_no r.cumulative
    then (r, false)
    else if is_some (get r.delivered seq_no)
    then (r, false)
    else (let delivered = insert r.delivered seq_no tt in
        (settle (size delivered) r.cumulative delivered, true))

-- `missing_below` is always empty.
unfoldable pub ack : AckedReceiveBuffer → AckInfo
ack r = record { cumulative_ack = r.cumulative; nacks = [] }
