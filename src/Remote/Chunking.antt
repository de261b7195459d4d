-- ===== src/Remote/Chunking.antt =====
-- crates/atomr-remote/src/chunking.rs: a payload cut into chunks, the bytes of a chunk, and the
-- reassembler. A `u8` is a number below 256; the clock's reading is an argument.
pub mod Wire
pub mod Split
pub mod Slots
pub mod Arrival
pub mod Complete
use atomr.Base.{
  ℕ, zero, suc, ◌+◌, ◌-◌, ◌*◌, ◌/◌, ◌%◌, Bool, true, false, ◌||◌, ◌⊎◌, inl, inr, Option, none, some,
  List, [], ◌∷◌, ◌++◌, Eq, nat_eq, ltb, leb, nat_beq, if◌then◌else◌, u32_mod, length, take, drop,
  to_le_bytes, from_le_bytes, not,
}
use atomr.Map.{Map, get, empty, insert, remove, retain, size}

pub data ChunkError : Type 0 where
  invalid_index : (idx total : ℕ) → ChunkError
  size_mismatch : (message_id previous now : ℕ) → ChunkError

pub record Chunk : Type 0 where
  pub message_id : ℕ
  pub chunk_idx : ℕ
  pub total_chunks : ℕ
  pub payload : List ℕ

unfoldable pub to_wire : Chunk → List ℕ
to_wire c =
    to_le_bytes 8 c.message_id
    ++ (to_le_bytes 4 c.chunk_idx ++ (to_le_bytes 4 c.total_chunks ++ c.payload))

unfoldable pub from_wire : List ℕ → Option Chunk
from_wire bytes =
    if ltb (length bytes) 16
    then none
    else some (record {
      message_id = from_le_bytes (take 8 bytes);
      chunk_idx = from_le_bytes (take 4 (drop 8 bytes));
      total_chunks = from_le_bytes (take 4 (drop 12 bytes));
      payload = drop 16 bytes;
    })

-- `payload.chunks(size)`, with one unit of fuel for each byte: a round takes at least one.
unfoldable pub pieces : ℕ → ℕ → List ℕ → List (List ℕ)
pieces fuel size [] = []
pieces zero size (b ∷ l) = []
pieces (suc fuel) size (b ∷ l) = take size (b ∷ l) ∷ pieces fuel size (drop size (b ∷ l))

-- The loop over the enumerated pieces, from index `i` on.
unfoldable pub label : ℕ → ℕ → ℕ → List (List ℕ) → List Chunk
label message_id total i [] = []
label message_id total i (p ∷ ps) =
    record {
      message_id = message_id;
      chunk_idx = i % u32_mod;
      total_chunks = total % u32_mod;
      payload = p;
    }
    ∷ label message_id total (suc i) ps

abbrev pub div_ceil : ℕ → ℕ → ℕ
div_ceil n size = (n + size - 1) / size

-- `Chunker::split`; `Chunker::new` panics on a size of 0.
unfoldable pub split : ℕ → ℕ → List ℕ → List Chunk
split chunk_size message_id [] =
    record { message_id = message_id; chunk_idx = 0; total_chunks = 1; payload = [] } ∷ []
split chunk_size message_id (b ∷ l) =
    label message_id (div_ceil (length (b ∷ l)) chunk_size) 0
      (pieces (length (b ∷ l)) chunk_size (b ∷ l))

pub record Pending : Type 0 where
  pub total : ℕ
  pub chunks : List (Option (List ℕ))
  pub received : ℕ
  pub started_at : ℕ

pub record Reassembler : Type 0 where
  pub pending : Map ℕ Pending

unfoldable pub new : Reassembler
new = record { pending = empty }

unfoldable pub empty_slots : ℕ → List (Option (List ℕ))
empty_slots zero = []
empty_slots (suc n) = none ∷ empty_slots n

-- The entry that `or_insert_with` gives.
unfoldable pub entry : Option Pending → ℕ → ℕ → Pending
entry (some p) now total = p
entry none now total = record {
  total = total;
  chunks = empty_slots total;
  received = 0;
  started_at = now;
}

-- The slots after `slots[i]` is filled if it was empty, and whether it was. The source panics past
-- the end, where this does nothing.
unfoldable pub fill : ℕ → List ℕ → List (Option (List ℕ)) → List (Option (List ℕ)) × Bool
fill i payload [] = ([], false)
fill zero payload (none ∷ slots) = (some payload ∷ slots, true)
fill zero payload (some old ∷ slots) = (some old ∷ slots, false)
fill (suc i) payload (slot ∷ slots) =
    let (filled, fresh) = fill i payload slots in (slot ∷ filled, fresh)

-- `into_iter().flatten()`, and the buffers joined.
unfoldable pub concatenate : List (Option (List ℕ)) → List ℕ
concatenate [] = []
concatenate (none ∷ slots) = concatenate slots
concatenate (some buf ∷ slots) = buf ++ concatenate slots

unfoldable pub receive : Chunk → Pending → Pending
receive chunk p =
    let (filled, fresh) = fill chunk.chunk_idx chunk.payload p.chunks in
    record p {
      chunks = filled;
      received = if fresh then (p.received + 1) % u32_mod else p.received;
    }

-- The end of `push`, on the entry with its slot filled.
unfoldable pub finish : Reassembler → ℕ → Pending → Reassembler × (ChunkError ⊎ Option (List ℕ))
finish r id p =
    if ltb p.received p.total
    then (record { pending = insert r.pending id p }, inr none)
    else (record { pending = remove r.pending id }, inr (some (concatenate p.chunks)))

unfoldable pub push : Reassembler → ℕ → Chunk → Reassembler × (ChunkError ⊎ Option (List ℕ))
push r now chunk =
    let p = entry (get r.pending chunk.message_id) now chunk.total_chunks in
    if nat_beq chunk.total_chunks 0 || leb chunk.total_chunks chunk.chunk_idx
    then (r, inl (invalid_index chunk.chunk_idx chunk.total_chunks))
    else if not (nat_beq p.total chunk.total_chunks)
    then (r, inl (size_mismatch chunk.message_id p.total chunk.total_chunks))
    else finish r chunk.message_id (receive chunk p)

unfoldable pub pending_message_count : Reassembler → ℕ
pending_message_count r = size r.pending

unfoldable pub is_young : ℕ → ℕ → Option Pending → Bool
is_young now older_than none = false
is_young now older_than (some p) = ltb (now - p.started_at) older_than

-- `duration_since` is 0 for an instant to come.
unfoldable pub gc_expired : Reassembler → ℕ → ℕ → Reassembler × ℕ
gc_expired r now older_than =
    let kept = retain (λ id. is_young now older_than (get r.pending id)) r.pending in
    (record { pending = kept }, size r.pending - size kept)
