-- ===== src/Persistence/Journal/Replays.antt =====
-- What a replay gives, and deletes.
use atomr.Base.{
  ℕ, zero, suc, ◌+◌, ◌-◌, ◌≡◌, refl, sym, ap, ◌∙◌, inl, inr, Bool-cases, Option-cases, true, false,
  some, List, [], ◌∷◌, take, drop, arith, leb, if◌then◌else◌, Text, text_eq, text_beq, text_beq_iff,
  max, subst,
}
use atomr.Map
use atomr.Persistence.Journal.{
  PersistentRepr, InMemoryJournal, stream_of, mark_to, marked, delete_messages_to, selected,
  replay_messages,
}
use atomr.Persistence.Journal.Numbers.{Numbered, mark_to-Numbered}
use atomr.Persistence.Journal.Writes.{stream, IsValid, stream-put}

-- The events that are not deleted.
unfoldable pub live : List PersistentRepr → List PersistentRepr
live [] = []
live (r ∷ l) = if r.deleted then live l else r ∷ live l

nothing : (a : ℕ) → live (drop a []) ≡ []
unfolding live
nothing zero = refl
nothing (suc a) = refl

-- The tests on the numbers, as a slice by position.
selected_slice :
    (from to n a b : ℕ) (l : List PersistentRepr)
    → Numbered (suc n) l
    → a ≡ from - 1 - n
    → b ≡ to - n
    → selected from to l ≡ live (drop a (take b l))
unfolding selected live
selected_slice from to n a zero [] h e f = sym (nothing a)
selected_slice from to n a (suc b) [] h e f = sym (nothing a)
selected_slice from to n a zero (r ∷ l) h e f =
    let past : leb r.sequence_nr to ≡ false = ground (arith, h.0, f) in
    let rest =
      selected_slice from to (suc n) (from - 1 - suc n) zero l h.1 refl (omega (arith, f)) in
    ground (arith, past, rest, nothing (from - 1 - suc n), nothing a)
selected_slice from to n (suc a) (suc b) (r ∷ l) h e f =
    let before : leb from r.sequence_nr ≡ false = ground (arith, h.0, e) in
    let rest = selected_slice from to (suc n) a b l h.1 (omega (arith, e)) (omega (arith, f)) in
    ground (arith, before, rest)
selected_slice from to n zero (suc b) (r ∷ l) h e f =
    let low : leb from r.sequence_nr ≡ true = ground (arith, h.0, e) in
    let high : leb r.sequence_nr to ≡ true = ground (arith, h.0, f) in
    let rest : selected from to l ≡ live (take b l) =
      selected_slice from to (suc n) zero b l h.1 (omega (arith, e)) (omega (arith, f)) in
    ground (arith, low, high, rest)

-- Deleting keeps the numbers.
pub delete-IsValid :
    (j : InMemoryJournal) (pid : Text) (upto : ℕ)
    → IsValid j
    → IsValid (delete_messages_to j pid upto)
unfolding delete_messages_to marked
delete-IsValid j pid upto v other = elim (Option-cases (Map.get j.streams pid)) [
  | inl e ↦ rw e (v other)
  | inr (l, e) ↦ rw e (
      rw (stream-put j pid other (mark_to upto l)) (elim (Bool-cases (text_beq pid other)) [
        | inl t ↦ rw t (mark_to-Numbered upto 1 l (numbered l e))
        | inr t ↦ rw t (v other)
      ]))
]
  where
    numbered : (l : List PersistentRepr) → Map.get j.streams pid ≡ some l → Numbered 1 l
    numbered l e = unfold stream_of in subst (λ o. Numbered 1 (stream_of o)) e (v pid)

replay-window :
    (j : InMemoryJournal) (pid : Text) (from to max_events : ℕ)
    → IsValid j
    → replay_messages j pid from to max_events
      ≡ take max_events (live (drop (from - 1) (take to (stream j pid))))
unfolding replay_messages
replay-window j pid from to max_events v =
    ap (λ l. take max_events l)
      (selected_slice from to 0 (from - 1) to (stream j pid) (v pid) (omega arith) (omega arith))

selected-mark_to :
    (from to upto : ℕ) (l : List PersistentRepr)
    → selected from to (mark_to upto l) ≡ selected (max from (upto + 1)) to l
unfolding selected mark_to
selected-mark_to from to upto [] = refl
selected-mark_to from to upto (r ∷ l) = elim (Bool-cases (leb r.sequence_nr upto)) [
  | inl e ↦
      let low : leb (max from (upto + 1)) r.sequence_nr ≡ false = ground arith in
      rw (e, low) (ground (arith, selected-mark_to from to upto l))
  | inr e ↦
      let same : leb (max from (upto + 1)) r.sequence_nr ≡ leb from r.sequence_nr = ground arith in
      rw (e, same) (ground (arith, selected-mark_to from to upto l))
]

stream-delete :
    (j : InMemoryJournal) (pid : Text) (upto : ℕ)
    → stream (delete_messages_to j pid upto) pid ≡ mark_to upto (stream j pid)
unfolding delete_messages_to marked
stream-delete j pid upto = elim (Option-cases (Map.get j.streams pid)) [
  | inl e ↦ rw e (rw e (unfold mark_to stream_of in refl))
  | inr (l, e) ↦ rw e (
      rw (stream-put j pid pid (mark_to upto l), (text_beq_iff pid pid).1 refl)
        (unfold stream_of in refl))
]

replay-delete :
    (j : InMemoryJournal) (pid : Text) (upto from to max_events : ℕ)
    → replay_messages (delete_messages_to j pid upto) pid from to max_events
      ≡ replay_messages j pid (max from (upto + 1)) to max_events
unfolding replay_messages
replay-delete j pid upto from to max_events =
    ap (λ l. take max_events l)
      (ap (λ l. selected from to l) (stream-delete j pid upto)
        ∙ selected-mark_to from to upto (stream j pid))

-- After a deletion up to and with the number `upto`, a replay of a valid journal gives the first
-- `max_events` events that were not deleted before, of the slice of the stream from the position `from`,
-- or from the one behind `upto` if that is later, up to and with the position `to`, counted from 1.
pub replay-delete_messages_to :
    (j : InMemoryJournal) (pid : Text) (upto from to max_events : ℕ)
    → IsValid j
    → replay_messages (delete_messages_to j pid upto) pid from to max_events
      ≡ take max_events (live (drop (max from (upto + 1) - 1) (take to (stream j pid))))
replay-delete_messages_to j pid upto from to max_events v =
    replay-delete j pid upto from to max_events
    ∙ replay-window j pid (max from (upto + 1)) to max_events v
