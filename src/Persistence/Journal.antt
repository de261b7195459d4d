-- ===== src/Persistence/Journal.antt =====
-- crates/atomr-persistence/src/journal.rs: the in-memory journal, the reference of the `Journal` trait.
-- A stream is made by the first write to it, also where that is rejected.
pub mod Numbers
pub mod Writes
pub mod Replays
use atomr.Base.{
  ℕ, suc, ◌+◌, ◌%◌, Bool, true, false, not, ◌&&◌, Option, none, some, List, [], ◌∷◌, ◌++◌, length,
  leb, nat_beq, if◌then◌else◌, take, Text, text_eq, text_beq, u64_mod,
}
use atomr.Map
use atomr.Map.{Map}

pub record PersistentRepr : Type 0 where
  pub persistence_id : Text
  pub sequence_nr : ℕ
  pub payload : Text
  pub manifest : Text
  pub writer_uuid : Text
  pub deleted : Bool
  pub tags : List Text

pub data JournalError : Type 0 where
  sequence_out_of_order : (expected got : ℕ) → JournalError
  not_found : Text → JournalError
  backend : Text → JournalError

pub data Outcome : Type 0 where
  ok : Outcome
  err : JournalError → Outcome

pub record InMemoryJournal : Type 0 where
  pub streams : Map Text (List PersistentRepr)

unfoldable pub new : InMemoryJournal
new = record { streams = Map.empty }

unfoldable pub stream_of : Option (List PersistentRepr) → List PersistentRepr
stream_of none = []
stream_of (some l) = l

unfoldable pub last : List PersistentRepr → Option PersistentRepr
last [] = none
last (r ∷ []) = some r
last (r ∷ s ∷ l) = last (s ∷ l)

unfoldable pub next_nr : Option PersistentRepr → ℕ
next_nr none = 1
next_nr (some r) = (r.sequence_nr + 1) % u64_mod

unfoldable pub put : InMemoryJournal → Text → List PersistentRepr → InMemoryJournal
put j pid l = record { streams = Map.insert j.streams pid l }

unfoldable pub write_messages : InMemoryJournal → List PersistentRepr → Outcome × InMemoryJournal
write_messages j [] = (ok, j)
write_messages j (msg ∷ messages) =
    let entry = stream_of (Map.get j.streams msg.persistence_id) in
    let expected = next_nr (last entry) in
    let rest = write_messages (put j msg.persistence_id (entry ++ msg ∷ [])) messages in
    if nat_beq msg.sequence_nr expected
    then rest
    else (err (sequence_out_of_order expected msg.sequence_nr), put j msg.persistence_id entry)

unfoldable pub mark_to : ℕ → List PersistentRepr → List PersistentRepr
mark_to to [] = []
mark_to to (r ∷ l) =
    (if leb r.sequence_nr to then record r { deleted = true } else r) ∷ mark_to to l

unfoldable pub marked : InMemoryJournal → Text → ℕ → Option (List PersistentRepr) → InMemoryJournal
marked j pid to none = j
marked j pid to (some l) = put j pid (mark_to to l)

unfoldable pub delete_messages_to : InMemoryJournal → Text → ℕ → InMemoryJournal
delete_messages_to j pid to = marked j pid to (Map.get j.streams pid)

unfoldable pub selected : (from to : ℕ) → List PersistentRepr → List PersistentRepr
selected from to [] = []
selected from to (r ∷ l) =
    let rest = selected from to l in
    if not r.deleted && (leb from r.sequence_nr && leb r.sequence_nr to) then r ∷ rest else rest

unfoldable pub replay_messages : InMemoryJournal → Text → (from to max : ℕ) → List PersistentRepr
replay_messages j pid from to max = take max (selected from to (stream_of (Map.get j.streams pid)))

unfoldable pub nr_of : Option PersistentRepr → ℕ
nr_of none = 0
nr_of (some r) = r.sequence_nr

unfoldable pub highest_sequence_nr : InMemoryJournal → Text → ℕ
highest_sequence_nr j pid = nr_of (last (stream_of (Map.get j.streams pid)))

unfoldable pub all_persistence_ids : InMemoryJournal → List Text
all_persistence_ids j = Map.keys j.streams

unfoldable pub live_count : List PersistentRepr → ℕ
live_count [] = 0
live_count (r ∷ l) = if r.deleted then live_count l else suc (live_count l)

unfoldable pub event_count : InMemoryJournal → Text → ℕ
event_count j pid = live_count (stream_of (Map.get j.streams pid))

unfoldable pub has_tag : Text → List Text → Bool
has_tag tag [] = false
has_tag tag (t ∷ tags) = if text_beq t tag then true else has_tag tag tags

-- The events of all streams, in the order of the map; what is found so far, and whether it is enough.
unfoldable pub scan_stream :
    (tag : Text) (from_offset max : ℕ)
    → List PersistentRepr
    → List PersistentRepr
    → List PersistentRepr × Bool
scan_stream tag from_offset max out [] = (out, false)
scan_stream tag from_offset max out (r ∷ l) =
    let on = scan_stream tag from_offset max out l in
    let with_r = scan_stream tag from_offset max (out ++ r ∷ []) l in
    if r.deleted
    then on
    else if not (leb from_offset r.sequence_nr)
    then on
    else if has_tag tag r.tags
    then (if leb max (length (out ++ r ∷ [])) then (out ++ r ∷ [], true) else with_r)
    else on

unfoldable pub scan_streams :
    (tag : Text) (from_offset max : ℕ)
    → List PersistentRepr
    → List (Text × List PersistentRepr)
    → List PersistentRepr
scan_streams tag from_offset max out [] = out
scan_streams tag from_offset max out ((pid, stream) ∷ l) =
    let found = scan_stream tag from_offset max out stream in
    let rest = scan_streams tag from_offset max found.0 l in if found.1 then found.0 else rest

unfoldable pub events_by_tag : InMemoryJournal → Text → (from_offset max : ℕ) → List PersistentRepr
events_by_tag j tag from_offset max = scan_streams tag from_offset max [] j.streams.entries
