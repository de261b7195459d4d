-- ===== src/Remote/Chunking/Complete.antt =====
-- Chunks that arrive in any order, more than once, among those of other messages.
use atomr.Base.{
  ℕ, zero, suc, ◌<◌, ◌≤◌, ◌≡◌, refl, true, false, ◌⊎◌, inl, inr, none, some, List, [], ◌∷◌, arith,
  nat_eq, nat_beq, nat_beq_iff, length, get_elem?, if◌then◌else◌, u32_mod, All, ap, sym, subst, ◌∙◌,
  Bool-cases, ◌≢◌,
}
use atomr.Map.{get, elem}
use atomr.Remote.Chunking.{Chunk, Reassembler, push, split, label}
use atomr.Remote.Chunking.Split.{
  joined, parts, joined-parts, split-parts, length-label, get_elem?-label,
}
use atomr.Remote.Chunking.Slots.{covers}
use atomr.Remote.Chunking.Arrival.{
  Waits, IsPiece, push_other, start-Waits, push-finish, finish_covered, finish_waiting,
  insert-Waits,
}

-- The reassembler after the chunks, each with the time at which it comes.
unfoldable pub deliver : Reassembler → List (ℕ × Chunk) → Reassembler
deliver r [] = r
deliver r ((now, c) ∷ cs) = deliver (push r now c).0 cs

-- The indices that have come when one more chunk has.
unfoldable pub one_more : ℕ → List ℕ → Chunk → List ℕ
one_more id seen c = if nat_beq c.message_id id then c.chunk_idx ∷ seen else seen

-- The indices of the message's chunks, the last first.
unfoldable pub arrived : ℕ → List ℕ → List (ℕ × Chunk) → List ℕ
arrived id seen [] = seen
arrived id seen ((now, c) ∷ cs) = arrived id (one_more id seen c) cs

-- A chunk of another message, or the one that stands in `chunks` under its index.
unfoldable pub IsFrom : ℕ → List Chunk → ℕ × Chunk → Type 0
IsFrom id chunks (now, c) = (c.message_id ≢ id) ⊎ (get_elem? chunks c.chunk_idx ≡ some c)

elem-one_more :
    (id j : ℕ) (seen : List ℕ) (c : Chunk) → elem j seen ≡ true → elem j (one_more id seen c) ≡ true
unfolding one_more elem
elem-one_more id j seen c h = ground arith

one_more_other :
    (id : ℕ) (seen : List ℕ) (c : Chunk) → c.message_id ≢ id → one_more id seen c ≡ seen
unfolding one_more
one_more_other id seen c n = ground (arith, nat_beq_iff c.message_id id)

one_more_own :
    (id : ℕ) (seen : List ℕ) (c : Chunk)
    → c.message_id ≡ id
    → one_more id seen c ≡ c.chunk_idx ∷ seen
unfolding one_more
one_more_own id seen c n = ground (arith, nat_beq_iff c.message_id id)

elem-arrived :
    (id j : ℕ) (seen : List ℕ) (cs : List (ℕ × Chunk))
    → elem j seen ≡ true
    → elem j (arrived id seen cs) ≡ true
unfolding arrived
elem-arrived id j seen [] h = h
elem-arrived id j seen ((now, c) ∷ cs) h =
    elem-arrived id j (one_more id seen c) cs (elem-one_more id j seen c h)

covers-arrived :
    (i n id : ℕ) (seen : List ℕ) (cs : List (ℕ × Chunk))
    → covers i n seen ≡ true
    → covers i n (arrived id seen cs) ≡ true
unfolding covers
covers-arrived i zero id seen cs h = refl
covers-arrived i (suc n) id seen cs h =
    ground (arith, elem-arrived id i seen cs, covers-arrived (suc i) n id seen cs)

module _ (id : ℕ) (ps : List (List ℕ)) (bound : length ps < u32_mod) where
  label-IsPiece :
      (c : Chunk) → get_elem? (label id (length ps) 0 ps) c.chunk_idx ≡ some c → IsPiece id ps c
  unfolding IsPiece
  label-IsPiece c e =
      ground (arith, get_elem?-label id (length ps) 0 c.chunk_idx c.chunk_idx ps c (omega arith) e)

  other-Waits :
      (r : Reassembler) (now : ℕ) (c : Chunk) (seen : List ℕ)
      → c.message_id ≢ id
      → Waits r id ps seen
      → Waits (push r now c).0 id ps seen
  unfolding Waits
  other-Waits r now c seen n w = rw (push_other r now c id n) w

  piece-Waits :
      (r : Reassembler) (now : ℕ) (c : Chunk) (seen : List ℕ)
      → IsPiece id ps c
      → covers 0 (length ps) (c.chunk_idx ∷ seen) ≡ false
      → Waits r id ps seen
      → Waits (push r now c).0 id ps (c.chunk_idx ∷ seen)
  piece-Waits r now c seen h n w =
      let (t, e) = push-finish id ps bound r now c seen w h in
      rw (e, finish_waiting id ps bound r (c.chunk_idx ∷ seen) t n)
        (insert-Waits id ps bound r (c.chunk_idx ∷ seen) t)

  own : (c : Chunk) → IsPiece id ps c → c.message_id ≡ id
  unfolding IsPiece
  own c h = h.0

  not_yet :
      (seen : List ℕ) (cs : List (ℕ × Chunk))
      → covers 0 (length ps) (arrived id seen cs) ≡ false
      → covers 0 (length ps) seen ≡ false
  not_yet seen cs n = ground (arith, covers-arrived 0 (length ps) id seen cs)

  deliver-Waits :
      (r : Reassembler) (seen : List ℕ) (cs : List (ℕ × Chunk))
      → Waits r id ps seen
      → All (IsFrom id (label id (length ps) 0 ps)) cs
      → covers 0 (length ps) (arrived id seen cs) ≡ false
      → Waits (deliver r cs) id ps (arrived id seen cs)
  unfolding deliver arrived IsFrom
  deliver-Waits r seen [] w f n = w
  deliver-Waits r seen ((now, c) ∷ cs) w (inl o, f) n =
      let same = one_more_other id seen c o in
      let n' = subst (λ l. covers 0 (length ps) (arrived id l cs) ≡ false) same n in
      subst (λ l. Waits (deliver (push r now c).0 cs) id ps (arrived id l cs)) (sym same)
        (deliver-Waits (push r now c).0 seen cs (other-Waits r now c seen o w) f n')
  deliver-Waits r seen ((now, c) ∷ cs) w (inr g, f) n =
      let h = label-IsPiece c g in
      let same = one_more_own id seen c (own c h) in
      let n' = subst (λ l. covers 0 (length ps) (arrived id l cs) ≡ false) same n in
      subst (λ l. Waits (deliver (push r now c).0 cs) id ps (arrived id l cs)) (sym same)
        (deliver-Waits (push r now c).0 (c.chunk_idx ∷ seen) cs
          (piece-Waits r now c seen h (not_yet (c.chunk_idx ∷ seen) cs n') w) f n')

  result :
      (r : Reassembler) (now : ℕ) (c : Chunk) (seen : List ℕ)
      → IsPiece id ps c
      → Waits r id ps seen
      → (push r now c).1
        ≡ inr (if covers 0 (length ps) (c.chunk_idx ∷ seen) then some (joined ps) else none)
  result r now c seen h w = elim (Bool-cases (covers 0 (length ps) (c.chunk_idx ∷ seen))) [
    | inl y ↦
        let (t, e) = push-finish id ps bound r now c seen w h in
        rw (e, finish_covered id ps bound r (c.chunk_idx ∷ seen) t y, y) refl
    | inr n ↦
        let (t, e) = push-finish id ps bound r now c seen w h in
        rw (e, finish_waiting id ps bound r (c.chunk_idx ∷ seen) t n, n) refl
  ]

-- The chunks of one split arrive in any order, each any number of times, among chunks of other
-- messages that may be malformed. While one is missing, each of them gives nothing; the one that
-- makes them complete gives the payload, unchanged.
pub reassembled :
    (chunk_size id : ℕ) (payload : List ℕ) (r : Reassembler) (cs : List (ℕ × Chunk)) (now : ℕ)
    (c : Chunk)
    → 1 ≤ chunk_size
    → length (split chunk_size id payload) < u32_mod
    → get r.pending id ≡ none
    → All (IsFrom id (split chunk_size id payload)) cs
    → covers 0 (length (split chunk_size id payload)) (arrived id [] cs) ≡ false
    → get_elem? (split chunk_size id payload) c.chunk_idx ≡ some c
    → (push (deliver r cs) now c).1
      ≡ inr (
          if covers 0 (length (split chunk_size id payload)) (c.chunk_idx ∷ arrived id [] cs)
          then some payload
          else none)
reassembled chunk_size id payload r cs now c h b g f n e =
    let ps = parts chunk_size payload in
    let s = split-parts chunk_size id payload h in
    let l : (length (split chunk_size id payload) ≡ length ps) =
      ap length s ∙ length-label id (length ps) 0 ps in
    let bound : (length ps < u32_mod) = subst (λ k. k < u32_mod) l b in
    let w =
      deliver-Waits id ps bound r [] cs (start-Waits id ps bound r g)
        (subst (λ k. All (IsFrom id k) cs) s f)
        (subst (λ k. covers 0 k (arrived id [] cs) ≡ false) l n) in
    let p = label-IsPiece id ps bound c (subst (λ k. get_elem? k c.chunk_idx ≡ some c) s e) in
    let whole = joined-parts chunk_size payload h in
    let full = covers 0 (length ps) (c.chunk_idx ∷ arrived id [] cs) in
    rw l (
      result id ps bound (deliver r cs) now c (arrived id [] cs) p w
      ∙ ap (λ k. inr (if full then some k else none)) whole)
