-- ===== src/Remote/Chunking/Wire.antt =====
-- The bytes of a chunk.
use atomr.Base.{
  ℕ, ◌+◌, ◌^◌, ◌<◌, ◌≤◌, ◌≡◌, refl, ◌↔◌, some, List, ◌++◌, arith, length, take, drop, All, IsByte,
  to_le_bytes, from_le_bytes, length-to_le_bytes, from_le_bytes-to_le_bytes, from_le_bytes-lt,
  to_le_bytes-from_le_bytes, take-append, drop-append, append-take-drop, drop-drop, length-take,
  length-drop, length-append, ◌∙◌, sym, ap, subst, All-take, All-drop,
}
use atomr.Remote.Chunking.{Chunk, to_wire, from_wire}

-- The fields of a chunk are the machine integers that the source declares.
abbrev pub InRange : Chunk → Type 0
InRange c =
    (c.message_id < 2 ^ 64)
    × (c.chunk_idx < 2 ^ 32)
    × (c.total_chunks < 2 ^ 32)
    × All IsByte c.payload

module _ (a b c p : List ℕ) where
  joined : List ℕ
  joined = a ++ (b ++ (c ++ p))

  cut :
      length a ≡ 8
      → length b ≡ 4
      → length c ≡ 4
      → (take 8 joined ≡ a)
        × (take 4 (drop 8 joined) ≡ b)
        × (take 4 (drop 12 joined) ≡ c)
        × (drop 16 joined ≡ p)
  unfolding joined
  cut ha hb hc =
      let after_a = drop-append 8 a (b ++ (c ++ p)) ha in
      let after_b =
        sym (drop-drop 8 4 12 joined refl)
        ∙ ap (λ l. drop 4 l) after_a
        ∙ drop-append 4 b (c ++ p) hb in
      let after_c =
        sym (drop-drop 12 4 16 joined refl) ∙ ap (λ l. drop 4 l) after_b ∙ drop-append 4 c p hc in
      (
        take-append 8 a (b ++ (c ++ p)) ha,
        ap (λ l. take 4 l) after_a ∙ take-append 4 b (c ++ p) hb,
        ap (λ l. take 4 l) after_b ∙ take-append 4 c p hc,
        after_c,
      )

  length-joined : length a ≡ 8 → length b ≡ 4 → length c ≡ 4 → length joined ≡ 16 + length p
  unfolding joined
  length-joined ha hb hc =
      omega (arith, length-append a (b ++ (c ++ p)), length-append b (c ++ p), length-append c p)

-- The four slices that `from_wire` takes make up the bytes.
rejoin :
    (bytes : List ℕ)
    → joined (take 8 bytes) (take 4 (drop 8 bytes)) (take 4 (drop 12 bytes)) (drop 16 bytes) ≡ bytes
unfolding joined
rejoin bytes =
    let third = append-take-drop 4 (drop 12 bytes) in
    let second = append-take-drop 4 (drop 8 bytes) in
    rw
      (
        sym (drop-drop 12 4 16 bytes refl),
        third,
        sym (drop-drop 8 4 12 bytes refl),
        second,
        append-take-drop 8 bytes,
      )
      refl

-- What `from_wire` makes of the four slices.
read : List ℕ → List ℕ → List ℕ → List ℕ → Chunk
read a b c p = record {
  message_id = from_le_bytes a;
  chunk_idx = from_le_bytes b;
  total_chunks = from_le_bytes c;
  payload = p;
}

from_wire-joined :
    (a b c p : List ℕ)
    → length a ≡ 8
    → length b ≡ 4
    → length c ≡ 4
    → from_wire (joined a b c p) ≡ some (read a b c p)
unfolding from_wire read
from_wire-joined a b c p ha hb hc =
    ground (arith, cut a b c p ha hb hc, length-joined a b c p ha hb hc)

from_wire-to_wire : (c : Chunk) → InRange c → from_wire (to_wire c) ≡ some c
unfolding to_wire joined read
from_wire-to_wire c h =
    from_wire-joined (to_le_bytes 8 c.message_id) (to_le_bytes 4 c.chunk_idx)
      (to_le_bytes 4 c.total_chunks) c.payload (length-to_le_bytes 8 c.message_id)
      (length-to_le_bytes 4 c.chunk_idx) (length-to_le_bytes 4 c.total_chunks)
    ∙ rw
        (
          from_le_bytes-to_le_bytes 8 c.message_id h.0,
          from_le_bytes-to_le_bytes 4 c.chunk_idx h.1,
          from_le_bytes-to_le_bytes 4 c.total_chunks h.2,
        )
        refl

-- The chunk that four slices of bytes give is in range, and writes the same bytes.
read-InRange :
    (a b c p : List ℕ)
    → length a ≡ 8
    → length b ≡ 4
    → length c ≡ 4
    → All IsByte a × All IsByte b × All IsByte c × All IsByte p
    → InRange (read a b c p)
unfolding read
read-InRange a b c p ha hb hc (va, vb, vc, vp) =
    (from_le_bytes-lt 8 a ha va, from_le_bytes-lt 4 b hb vb, from_le_bytes-lt 4 c hc vc, vp)

to_wire-read :
    (a b c p : List ℕ)
    → length a ≡ 8
    → length b ≡ 4
    → length c ≡ 4
    → All IsByte a × All IsByte b × All IsByte c × All IsByte p
    → to_wire (read a b c p) ≡ joined a b c p
unfolding read to_wire joined
to_wire-read a b c p ha hb hc (va, vb, vc, vp) =
    rw
      (
        to_le_bytes-from_le_bytes 8 a ha va,
        to_le_bytes-from_le_bytes 4 b hb vb,
        to_le_bytes-from_le_bytes 4 c hc vc,
      )
      refl

module _ (bytes : List ℕ) (h : All IsByte bytes) (long : 16 ≤ length bytes) where
  lengths :
      (length (take 8 bytes) ≡ 8)
      × (length (take 4 (drop 8 bytes)) ≡ 4)
      × (length (take 4 (drop 12 bytes)) ≡ 4)
  lengths = (
    omega (arith, length-take 8 bytes),
    omega (arith, length-take 4 (drop 8 bytes), length-drop 8 bytes),
    omega (arith, length-take 4 (drop 12 bytes), length-drop 12 bytes),
  )

  slices :
      All IsByte (take 8 bytes)
      × All IsByte (take 4 (drop 8 bytes))
      × All IsByte (take 4 (drop 12 bytes))
      × All IsByte (drop 16 bytes)
  slices = (
    All-take IsByte 8 bytes h,
    All-take IsByte 4 (drop 8 bytes) (All-drop IsByte 8 bytes h),
    All-take IsByte 4 (drop 12 bytes) (All-drop IsByte 12 bytes h),
    All-drop IsByte 16 bytes h,
  )

  sliced : Chunk
  sliced = read (take 8 bytes) (take 4 (drop 8 bytes)) (take 4 (drop 12 bytes)) (drop 16 bytes)

  from_wire-sliced : from_wire bytes ≡ some sliced
  unfolding sliced
  from_wire-sliced =
      let (ha, hb, hc) = lengths in
      ap from_wire (sym (rejoin bytes)) ∙ from_wire-joined _ _ _ _ ha hb hc

  to_wire-sliced : InRange sliced × (to_wire sliced ≡ bytes)
  unfolding sliced
  to_wire-sliced =
      let (ha, hb, hc) = lengths in
      (read-InRange _ _ _ _ ha hb hc slices, to_wire-read _ _ _ _ ha hb hc slices ∙ rejoin bytes)

  wire_back : (c : Chunk) → from_wire bytes ≡ some c → InRange c × (to_wire c ≡ bytes)
  wire_back c e =
      let same : (some sliced ≡ some c) = sym from_wire-sliced ∙ e in
      subst (λ d. InRange d × (to_wire d ≡ bytes)) (cc same) to_wire-sliced

too_short : (bytes : List ℕ) (c : Chunk) → from_wire bytes ≡ some c → 16 ≤ length bytes
unfolding from_wire
too_short bytes c e = ground arith

-- A chunk is read from a string of bytes exactly when its fields are in range and the string is the
-- one that is written for it: what is written is read back, and nothing else is read as that chunk.
pub from_wire_iff :
    (bytes : List ℕ) (c : Chunk)
    → All IsByte bytes
    → (from_wire bytes ≡ some c) ↔ (InRange c × (to_wire c ≡ bytes))
from_wire_iff bytes c h = (
  λ e. wire_back bytes h (too_short bytes c e) c e,
  λ (r, e). ap from_wire (sym e) ∙ from_wire-to_wire c r,
)
