-- ===== src/Persistence/Tests.antt =====
-- Runs of the journal, and an instance of each theorem.
use atomr.Base.{
  ℕ, ◌+◌, ◌-◌, ◌≡◌, refl, false, List, [], ◌∷◌, take, drop, max, arith, text_eq, codes, text_beq,
}
use atomr.Map
use atomr.Persistence.Journal.{
  PersistentRepr, sequence_out_of_order, err, new, stream_of, last, next_nr, put, write_messages,
  delete_messages_to, replay_messages, events_by_tag, scan_streams, scan_stream, has_tag,
}
use atomr.Persistence.Journal.Writes.{stream, IsValid, HasRoom, IsSplit, write_messages_lem}
use atomr.Persistence.Journal.Replays.{live, replay-delete_messages_to}

abbrev event : ℕ → PersistentRepr
event nr = record {
  persistence_id = codes "p";
  sequence_nr = nr;
  payload = nr ∷ [];
  manifest = [];
  writer_uuid = [];
  deleted = false;
  tags = codes "t" ∷ [];
}

new-IsValid : IsValid new
unfolding new stream_of
new-IsValid pid = rw (Map.get-empty {V = List PersistentRepr} pid) tt

new-HasRoom : HasRoom 3 new
unfolding new stream_of
new-HasRoom pid = rw (Map.get-empty {V = List PersistentRepr} pid) (omega arith)

-- The third event has the wrong number: the first two stay.
abbrev batch : List PersistentRepr
batch = event 1 ∷ event 2 ∷ event 4 ∷ []

write_messages_lem_example :
    IsSplit batch new (write_messages new batch) × IsValid (write_messages new batch).1
write_messages_lem_example = write_messages_lem batch new new-IsValid new-HasRoom

batch_runs :
    ((write_messages new batch).0 ≡ err (sequence_out_of_order 3 4))
    × (stream (write_messages new batch).1 (codes "p") ≡ event 1 ∷ event 2 ∷ [])
unfolding write_messages new put stream_of last next_nr Map.get Map.insert Map.empty Map.lookup
    Map.set text_beq
batch_runs = (refl, refl)

batch-IsValid : IsValid (write_messages new batch).1
batch-IsValid = (write_messages_lem batch new new-IsValid new-HasRoom).1

replay-delete_messages_to_example :
    replay_messages
      (delete_messages_to (write_messages new batch).1 (codes "p") 1)
      (codes "p")
      0
      9
      5
    ≡ take 5
        (live (drop (max 0 (1 + 1) - 1) (take 9 (stream (write_messages new batch).1 (codes "p")))))
replay-delete_messages_to_example =
    replay-delete_messages_to (write_messages new batch).1 (codes "p") 1 0 9 5 batch-IsValid

-- A limit of 0 still gives an event.
limit_runs : events_by_tag (write_messages new batch).1 (codes "t") 0 0 ≡ event 1 ∷ []
unfolding events_by_tag scan_streams scan_stream has_tag write_messages new put stream_of last
    next_nr Map.get Map.insert Map.empty Map.lookup Map.set text_beq
limit_runs = refl
