-- ===== src/Persistence/Journal/Writes.antt =====
-- What a batch of writes comes to.
use atomr.Base.{
  ℕ, suc, ◌+◌, ◌<◌, ◌≡◌, ◌≢◌, refl, sym, ap, ◌∙◌, inl, inr, Bool-cases, true, false, List, [], ◌∷◌,
  ◌++◌, length, length-append, arith, nat_beq, nat_beq_iff, if◌then◌else◌, Text, text_eq, text_beq,
  text_beq_iff, u64_mod,
}
use mathlib.Core.List.{append_assoc, append-nil}
use atomr.Map
use atomr.Map.{Map}
use atomr.Persistence.Journal.{
  PersistentRepr, sequence_out_of_order, Outcome, ok, err, InMemoryJournal, stream_of, last,
  next_nr, put, write_messages,
}
use atomr.Persistence.Journal.Numbers.{Numbered, Numbered-snoc, next_nr-last}

abbrev pub stream : InMemoryJournal → Text → List PersistentRepr
stream j pid = stream_of (Map.get j.streams pid)

-- Every stream is numbered from 1 on, without a gap.
abbrev pub IsValid : InMemoryJournal → Type 0
IsValid j = (pid : Text) → Numbered 1 (stream j pid)

-- Every stream has room for `n` more events.
abbrev pub HasRoom : ℕ → InMemoryJournal → Type 0
HasRoom n j = (pid : Text) → length (stream j pid) + n < u64_mod

-- The events of a batch for one stream.
unfoldable pub of_id : Text → List PersistentRepr → List PersistentRepr
of_id pid [] = []
of_id pid (r ∷ l) = if text_beq r.persistence_id pid then r ∷ of_id pid l else of_id pid l

pub stream-put :
    (j : InMemoryJournal) (pid other : Text) (l : List PersistentRepr)
    → stream (put j pid l) other ≡ (if text_beq pid other then l else stream j other)
unfolding put stream_of
stream-put j pid other l =
    rw (Map.get-insert j.streams pid l other)
      (elim (Bool-cases (text_beq pid other)) [ inl e ↦ rw e refl | inr e ↦ rw e refl ])

-- Why a batch stopped: all of it is written, or the next event has the wrong number.
abbrev pub Stopped : Outcome → List PersistentRepr → InMemoryJournal → Type 0
Stopped ok rest j = rest ≡ []
Stopped (err e) rest j =
    (r : PersistentRepr) × (l : List PersistentRepr) × (rest ≡ r ∷ l)
    × (r.sequence_nr ≢ length (stream j r.persistence_id) + 1)
    × (e ≡ sequence_out_of_order (length (stream j r.persistence_id) + 1) r.sequence_nr)

-- The batch is split in two: the first events are at the ends of their streams, in order, and no other
-- event is written.
abbrev pub IsSplit : List PersistentRepr → InMemoryJournal → Outcome × InMemoryJournal → Type 0
IsSplit messages j (out, k) =
    (written : List PersistentRepr) × (rest : List PersistentRepr) × (messages ≡ written ++ rest)
    × ((pid : Text) → stream k pid ≡ stream j pid ++ of_id pid written)
    × Stopped out rest k

stream_again :
    (j : InMemoryJournal) (id pid : Text) → stream (put j id (stream j id)) pid ≡ stream j pid
stream_again j id pid =
    rw (stream-put j id pid (stream j id)) (elim (Bool-cases (text_beq id pid)) [
      | inl t ↦ let same : id ≡ pid = (text_beq_iff id pid).0 t in rw t (ap (λ q. stream j q) same)
      | inr t ↦ rw t refl
    ])

module _ (j : InMemoryJournal) (r : PersistentRepr) (v : IsValid j) (room : HasRoom 1 j) where
  abbrev entry : List PersistentRepr
  entry = stream j r.persistence_id

  abbrev more : InMemoryJournal
  more = put j r.persistence_id (entry ++ r ∷ [])

  next : next_nr (last entry) ≡ length entry + 1
  next = next_nr-last entry (v r.persistence_id) (room r.persistence_id)

  stream-more :
      (pid : Text)
      → stream more pid ≡ (if text_beq r.persistence_id pid then entry ++ r ∷ [] else stream j pid)
  stream-more pid = stream-put j r.persistence_id pid (entry ++ r ∷ [])

  more-IsValid : r.sequence_nr ≡ length entry + 1 → IsValid more
  more-IsValid e pid = rw (stream-more pid) (elim (Bool-cases (text_beq r.persistence_id pid)) [
    | inl t ↦ rw t (Numbered-snoc 1 entry r (v r.persistence_id) (omega (arith, e)))
    | inr t ↦ rw t (v pid)
  ])

  stream_ids :
      (pid : Text) (written : List PersistentRepr)
      → stream more pid ++ of_id pid written ≡ stream j pid ++ of_id pid (r ∷ written)
  unfolding of_id
  stream_ids pid written = rw (stream-more pid) (elim (Bool-cases (text_beq r.persistence_id pid)) [
    | inl t ↦
        let same : r.persistence_id ≡ pid = (text_beq_iff r.persistence_id pid).0 t in
        rw t (
          append_assoc entry (r ∷ []) (of_id pid written)
          ∙ ap (λ q. stream j q ++ r ∷ of_id pid written) same)
    | inr t ↦ rw t refl
  ])

HasRoom-more :
    (n : ℕ) (j : InMemoryJournal) (r : PersistentRepr)
    → HasRoom (suc n) j
    → HasRoom n (put j r.persistence_id (stream j r.persistence_id ++ r ∷ []))
HasRoom-more n j r room pid =
    rw (stream-put j r.persistence_id pid (stream j r.persistence_id ++ r ∷ []))
      (elim (Bool-cases (text_beq r.persistence_id pid)) [
        | inl t ↦ rw t (
            omega
              (arith, room r.persistence_id, length-append (stream j r.persistence_id) (r ∷ [])))
        | inr t ↦ rw t (omega (arith, room pid))
      ])

write-accepted :
    (j : InMemoryJournal) (r : PersistentRepr) (l : List PersistentRepr)
    → nat_beq r.sequence_nr (next_nr (last (stream j r.persistence_id))) ≡ true
    → write_messages j (r ∷ l)
      ≡ write_messages (put j r.persistence_id (stream j r.persistence_id ++ r ∷ [])) l
unfolding write_messages
write-accepted j r l e = rw e refl

write-rejected :
    (j : InMemoryJournal) (r : PersistentRepr) (l : List PersistentRepr)
    → nat_beq r.sequence_nr (next_nr (last (stream j r.persistence_id))) ≡ false
    → write_messages j (r ∷ l) ≡ (
      err (sequence_out_of_order (next_nr (last (stream j r.persistence_id))) r.sequence_nr),
      put j r.persistence_id (stream j r.persistence_id),
    )
unfolding write_messages
write-rejected j r l e = rw e refl

-- On a valid journal with room, a batch is split in two: the first events are at the ends of their
-- streams, in order, and no other event is written. The journal is valid again. Either nothing is left,
-- or the next event has not the number after its stream, and the error says which that is: the events
-- before it stay written.
pub write_messages_lem :
    (messages : List PersistentRepr) (j : InMemoryJournal)
    → IsValid j
    → HasRoom (length messages) j
    → IsSplit messages j (write_messages j messages) × IsValid (write_messages j messages).1
unfolding of_id
write_messages_lem [] j v room =
    unfold write_messages in (([], [], refl, λ pid. sym (append-nil (stream j pid)), refl), v)
write_messages_lem (r ∷ messages) j v room =
    let room_1 : HasRoom 1 j = λ pid. omega (arith, room pid) in
    let number = next j r v room_1 in
    elim (Bool-cases (nat_beq r.sequence_nr (next_nr (last (stream j r.persistence_id))))) [
      | inl e ↦
          let nr : r.sequence_nr ≡ length (stream j r.persistence_id) + 1 =
            ground
              (arith, nat_beq_iff r.sequence_nr (next_nr (last (stream j r.persistence_id)))) in
          let ((written, rest, split, streams, stopped), valid) =
            write_messages_lem messages (more j r v room_1) (more-IsValid j r v room_1 nr)
              (HasRoom-more (length messages) j r room) in
          rw (write-accepted j r messages e) (
            (
              r ∷ written,
              rest,
              ap (λ l. r ∷ l) split,
              λ pid. streams pid ∙ stream_ids j r v room_1 pid written,
              stopped,
            ),
            valid,
          )
      | inr e ↦
          let same = stream_again j r.persistence_id in
          let size : length
                (stream (put j r.persistence_id (stream j r.persistence_id)) r.persistence_id)
              ≡ length (stream j r.persistence_id) =
            ap (λ l. length l) (same r.persistence_id) in
          rw (write-rejected j r messages e) (
            (
              [],
              r ∷ messages,
              refl,
              λ pid. same pid ∙ sym (append-nil (stream j pid)),
              (
                r,
                messages,
                refl,
                λ h.
                    ground (
                      arith,
                      nat_beq_iff r.sequence_nr (next_nr (last (stream j r.persistence_id))),
                    ),
                ap (λ n. sequence_out_of_order n r.sequence_nr) (omega (arith, number, size)),
              ),
            ),
            λ pid. rw (same pid) (v pid),
          )
    ]
