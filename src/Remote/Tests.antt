-- ===== src/Remote/Tests.antt =====
-- The theorems on acked delivery and chunking at concrete buffers.
use atomr.Base.{
  ℕ, ◌≡◌, ◌||◌, ◌↔◌, min, refl, not, [], ◌∷◌, arith, nat_eq, nat_beq, if◌then◌else◌, some, inl, inr,
  to_le_bytes,
}
use atomr.Map.{get, lookup, IsUnique, empty, elem}
use atomr.Remote.AckedDelivery.{AckedSendBuffer, AckedReceiveBuffer, observe}
use atomr.Remote.AckedDelivery.Receive.{seen, IsValid, observe-Sees}
use atomr.Remote.AckedDelivery.Loss.{deliver, occurrences, exactly_once}
use atomr.Remote.Chunking.{Chunk, split, label, pieces, to_wire, from_wire, push, new}
use atomr.Remote.Chunking.Wire.{InRange, from_wire_iff}
use atomr.Remote.Chunking.Complete.{arrived, one_more, IsFrom, reassembled}
use atomr.Remote.Chunking.Complete as Complete
use atomr.Remote.Chunking.Slots.{covers}

-- All up to 2 has come, and 5.
gap-IsUnique : IsUnique {K = ℕ} {V = Unit {0}} ((5, tt) ∷ [])
unfolding lookup
gap-IsUnique = (refl, tt)

abbrev gap : AckedReceiveBuffer
gap = record {
  cumulative = 2;
  delivered = record { entries = (5, tt) ∷ []; unique = gap-IsUnique };
}

gap-IsValid : IsValid gap
unfolding IsValid get lookup
gap-IsValid = (omega arith, λ n h. ground arith)

observe-Sees_example :
    ((observe gap 3).1 ≡ not (seen gap 3))
    × (seen (observe gap 3).0 4 ≡ (seen gap 4 || nat_beq 3 4))
observe-Sees_example = observe-Sees gap 3 4 gap-IsValid (omega arith)

exactly_once_example :
    occurrences 3 (deliver gap (3 ∷ 4 ∷ 3 ∷ []))
    ≡ (if seen gap 3 then 0 else min 1 (occurrences 3 (3 ∷ 4 ∷ 3 ∷ [])))
exactly_once_example =
    exactly_once gap (3 ∷ 4 ∷ 3 ∷ []) 3 gap-IsValid (omega arith, (omega arith, (omega arith, tt)))

in_flight-IsUnique : IsUnique {K = ℕ} {V = ℕ} ((2, 20) ∷ (3, 30) ∷ [])
unfolding lookup
in_flight-IsUnique = (refl, (refl, tt))

abbrev in_flight : AckedSendBuffer ℕ
in_flight = record {
  capacity = 4;
  pending = record { entries = (2, 20) ∷ (3, 30) ∷ []; unique = in_flight-IsUnique };
  nacks = [];
}

-- The chunk that `split 2 7 [1, 2, 3]` puts at index 1.
abbrev second_chunk : Chunk
second_chunk = record { message_id = 7; chunk_idx = 1; total_chunks = 2; payload = 3 ∷ [] }

abbrev first_chunk : Chunk
first_chunk = record { message_id = 7; chunk_idx = 0; total_chunks = 2; payload = 1 ∷ 2 ∷ [] }

-- A chunk of another message, with a bad index.
abbrev stray_chunk : Chunk
stray_chunk = record { message_id = 8; chunk_idx = 5; total_chunks = 2; payload = [] }

split_three : split 2 7 (1 ∷ 2 ∷ 3 ∷ []) ≡ first_chunk ∷ second_chunk ∷ []
unfolding split label pieces
split_three = refl

from_wire_iff_example :
    (from_wire (to_wire second_chunk) ≡ some second_chunk)
    ↔ (InRange second_chunk × (to_wire second_chunk ≡ to_wire second_chunk))
unfolding to_wire to_le_bytes
from_wire_iff_example = from_wire_iff (to_wire second_chunk) second_chunk (ground arith)

reassembled_example :
    (push
      (Complete.deliver new ((0, second_chunk) ∷ (1, stray_chunk) ∷ (2, second_chunk) ∷ []))
      3
      first_chunk).1
    ≡ inr (some (1 ∷ 2 ∷ 3 ∷ []))
unfolding split label pieces get lookup new empty covers arrived one_more elem IsFrom
reassembled_example =
    reassembled 2 7 (1 ∷ 2 ∷ 3 ∷ []) new
      ((0, second_chunk) ∷ (1, stray_chunk) ∷ (2, second_chunk) ∷ []) 3 first_chunk (omega arith)
      (omega arith) refl (inr refl, (inl (λ e. absurd (omega (arith, e))), (inr refl, tt))) refl
      refl
