-- ===== src/Remote/Chunking/Arrival.antt =====
-- One chunk that arrives at the reassembler.
use atomr.Base.{
  ℕ, ◌<◌, ◌≡◌, true, false, inl, inr, none, some, List, [], ◌∷◌, arith, nat_eq, nat_beq,
  nat_beq_iff, length, get_elem?, if◌then◌else◌, u32_mod, ap, sym, ◌∙◌, ◌≢◌, ◌||◌, not, leb,
}
use atomr.Map.{get, insert, remove, get-insert, get-remove}
use atomr.Remote.Chunking.{
  Chunk, Pending, Reassembler, entry, receive, finish, invalid_index, size_mismatch, push,
}
use atomr.Remote.Chunking.Split.{joined}
use atomr.Remote.Chunking.Slots.{
  slots, held, covers, fill-slots, held-le, covers-held, concatenate-slots, slots-nil,
}

-- What is kept of a message of which the chunks in `seen` have come.
unfoldable pub kept : List (List ℕ) → List ℕ → ℕ → Pending
kept ps seen t = record {
  total = length ps;
  chunks = slots 0 seen ps;
  received = held 0 seen ps;
  started_at = t;
}

unfoldable pub Waits : Reassembler → ℕ → List (List ℕ) → List ℕ → Type 0
Waits r id ps seen =
    (now : ℕ) → (t : ℕ) × (entry (get r.pending id) now (length ps) ≡ kept ps seen t)

-- The chunk of the message with these pieces that its index says.
unfoldable pub IsPiece : ℕ → List (List ℕ) → Chunk → Type 0
IsPiece id ps c =
    (c.message_id ≡ id)
    × (c.total_chunks ≡ length ps)
    × (get_elem? ps c.chunk_idx ≡ some c.payload)
    × (c.chunk_idx < length ps)

push_valid :
    (r : Reassembler) (now : ℕ) (c : Chunk) (p : Pending)
    → entry (get r.pending c.message_id) now c.total_chunks ≡ p
    → p.total ≡ c.total_chunks
    → c.chunk_idx < c.total_chunks
    → push r now c ≡ finish r c.message_id (receive c p)
unfolding push
push_valid r now c p e q l =
    let f = λ (o : Pending).
      if nat_beq c.total_chunks 0 || leb c.total_chunks c.chunk_idx
      then (r, inl (invalid_index c.chunk_idx c.total_chunks))
      else if not (nat_beq o.total c.total_chunks)
      then (r, inl (size_mismatch c.message_id o.total c.total_chunks))
      else finish r c.message_id (receive c o) in
    ap f e ∙ ground arith

finish_other :
    (r : Reassembler) (k id : ℕ) (p : Pending)
    → k ≢ id
    → get (finish r k p).0.pending id ≡ get r.pending id
unfolding finish
finish_other r k id p n =
    ground (arith, nat_beq_iff k id, get-insert r.pending k p id, get-remove r.pending k id)

-- Whatever chunk of one message comes, what is kept of the others stays.
pub push_other :
    (r : Reassembler) (now : ℕ) (c : Chunk) (id : ℕ)
    → c.message_id ≢ id
    → get (push r now c).0.pending id ≡ get r.pending id
unfolding push
push_other r now c id n =
    let p = entry (get r.pending c.message_id) now c.total_chunks in
    let o = finish_other r c.message_id id (receive c p) n in ground (arith, o)

module _ (id : ℕ) (ps : List (List ℕ)) (bound : length ps < u32_mod) where
  pub start-Waits : (r : Reassembler) → get r.pending id ≡ none → Waits r id ps []
  unfolding Waits entry kept
  start-Waits r h now = (now, ground (arith, h, slots-nil 0 ps))

  receive-kept :
      (c : Chunk) (seen : List ℕ) (t : ℕ)
      → IsPiece id ps c
      → receive c (kept ps seen t) ≡ kept ps (c.chunk_idx ∷ seen) t
  unfolding IsPiece receive kept
  receive-kept c seen t (q, n, e, l) = ground (
    arith,
    fill-slots 0 c.chunk_idx c.chunk_idx seen ps c.payload (omega arith) e,
    held-le 0 (c.chunk_idx ∷ seen) ps,
  )

  pub push-finish :
      (r : Reassembler) (now : ℕ) (c : Chunk) (seen : List ℕ)
      → Waits r id ps seen
      → IsPiece id ps c
      → (t : ℕ) × (push r now c ≡ finish r id (kept ps (c.chunk_idx ∷ seen) t))
  unfolding Waits IsPiece kept
  push-finish r now c seen w h = (
    (w now).0,
    push_valid r now c (kept ps seen (w now).0)
          (ap (λ i. entry (get r.pending i) now c.total_chunks) h.0
            ∙ ap (λ n. entry (get r.pending id) now n) h.1
            ∙ (w now).1)
          (sym h.1) (omega (arith, h.1, h.3))
        ∙ ap (λ i. finish r i (receive c (kept ps seen (w now).0))) h.0
        ∙ ap (λ p. finish r id p) (receive-kept c seen (w now).0 h),
  )

  pub finish_covered :
      (r : Reassembler) (seen : List ℕ) (t : ℕ)
      → covers 0 (length ps) seen ≡ true
      → finish r id (kept ps seen t)
        ≡ (record { pending = remove r.pending id }, inr (some (joined ps)))
  unfolding finish kept
  finish_covered r seen t h = ground (arith, covers-held 0 seen ps, concatenate-slots 0 seen ps h)

  pub finish_waiting :
      (r : Reassembler) (seen : List ℕ) (t : ℕ)
      → covers 0 (length ps) seen ≡ false
      → finish r id (kept ps seen t)
        ≡ (record { pending = insert r.pending id (kept ps seen t) }, inr none)
  unfolding finish kept
  finish_waiting r seen t h = ground (arith, covers-held 0 seen ps, held-le 0 seen ps)

  pub insert-Waits :
      (r : Reassembler) (seen : List ℕ) (t : ℕ)
      → Waits (record { pending = insert r.pending id (kept ps seen t) }) id ps seen
  unfolding Waits entry
  insert-Waits r seen t now = (t, ground (arith, get-insert r.pending id (kept ps seen t) id))
