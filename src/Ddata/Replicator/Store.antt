-- ===== src/Ddata/Replicator/Store.antt =====
-- What a read gives after an update.
use atomr.Base.{◌≡◌, ◌≢◌, Option, none, some, arith, Text, text_beq_iff, text_eq}
use atomr.Map
use atomr.Map.{Map}
use atomr.Ddata.Replicator.{Stored, Replicator, updated, downcast_at, get, update}

-- The value that was there, merged with the new one.
abbrev pub joined : {T : Type 0} → (T → T → T) → Option T → T → T
joined merge none value = value
joined merge (some current) value = merge current value

updated-downcast :
    (E : Type 0) {T : Type 0} ⦃s : Stored E T⦄ (old : Option T) (value : T)
    → s.downcast (updated old value) ≡ some (joined s.merge old value)
unfolding updated
updated-downcast E ⦃s⦄ none value = s.downcast_boxed value
updated-downcast E ⦃s⦄ (some current) value = s.downcast_boxed (s.merge current value)

-- A read of the type that was written: the value that was there, if it had that type, merged with the
-- new one.
pub get-update :
    {E T : Type 0} ⦃s : Stored E T⦄ (r : Replicator E) (key : Text) (value : T)
    → get (update r key value) key ≡ some (joined s.merge (get {T = T} r key) value)
unfolding get update downcast_at
get-update {E} {T} ⦃s⦄ r key value =
    let old : Option T = downcast_at (Map.get r.store key) in
    let here : Map.get (Map.insert r.store key (updated old value)) key ≡ some (updated old value) =
      ground (arith, Map.get-insert r.store key (updated old value) key, text_beq_iff key key) in
    rw (here, downcast_at) (updated-downcast E old value)

-- An update leaves the other keys alone.
pub store-update_other :
    {E T : Type 0} ⦃s : Stored E T⦄ (r : Replicator E) (key other : Text) (value : T)
    → key ≢ other
    → Map.get (update r key value).store other ≡ Map.get r.store other
unfolding update
store-update_other {E} {T} r key other value n =
    let old : Option T = downcast_at (Map.get r.store key) in
    ground (arith, Map.get-insert r.store key (updated old value) other, text_beq_iff key other)
