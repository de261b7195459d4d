-- ===== src/Ddata/Replicator.antt =====
-- crates/atomr-distributed-data/src/replicator.rs: the store of one node, its subscribers, and how many
-- replies a consistency level asks for.
pub mod Store
use atomr.Base.{
  ℕ, suc, ◌+◌, ◌≡◌, ◌/◌, ◌%◌, Bool, not, Option, none, some, List, [], ◌∷◌, ◌++◌, length, nat_beq,
  max, min, if◌then◌else◌, Text, text_eq, u64_mod,
}
use atomr.Map
use atomr.Map.{Map}

-- `T: CrdtMerge + 'static` as it stands in a `Box<dyn Any>`: `downcast` gives back what was boxed.
pub record Stored (E T : Type 0) : Type 0 where
  pub boxed : T → E
  pub downcast : E → Option T
  pub downcast_boxed : (t : T) → downcast (boxed t) ≡ some t
  pub merge : T → T → T

pub record Replicator (E : Type 0) : Type 0 where
  pub store : Map Text E
  pub subscribers : Map Text (List ℕ)
  pub next_sub_id : ℕ

unfoldable pub at_key : Option (List ℕ) → List ℕ
at_key none = []
at_key (some ids) = ids

unfoldable pub without_id : ℕ → List ℕ → List ℕ
without_id id [] = []
without_id id (i ∷ ids) = let rest = without_id id ids in if nat_beq i id then rest else i ∷ rest

-- The list that `retain` leaves; an empty one goes.
unfoldable pub put_ids : Map Text (List ℕ) → Text → List ℕ → Map Text (List ℕ)
put_ids m key [] = Map.remove m key
put_ids m key (i ∷ ids) = Map.insert m key (i ∷ ids)

unfoldable pub retained : Map Text (List ℕ) → Text → ℕ → Option (List ℕ) → Map Text (List ℕ)
retained m key id none = m
retained m key id (some ids) = put_ids m key (without_id id ids)

module _ {E : Type 0} where
  unfoldable pub new : Replicator E
  new = record { store = Map.empty; subscribers = Map.empty; next_sub_id = 0 }

  -- What `update` stores over the value that is there.
  unfoldable pub updated : {T : Type 0} ⦃s : Stored E T⦄ → Option T → T → E
  updated ⦃s⦄ (some current) value = s.boxed (s.merge current value)
  updated ⦃s⦄ none value = s.boxed value

  unfoldable pub downcast_at : {T : Type 0} ⦃s : Stored E T⦄ → Option E → Option T
  downcast_at none = none
  downcast_at ⦃s⦄ (some e) = s.downcast e

  unfoldable pub get : {T : Type 0} ⦃s : Stored E T⦄ → Replicator E → Text → Option T
  get r key = downcast_at (Map.get r.store key)

  unfoldable pub update : {T : Type 0} ⦃s : Stored E T⦄ → Replicator E → Text → T → Replicator E
  update r key value = record r {
    store = Map.insert r.store key (updated (downcast_at (Map.get r.store key)) value);
  }

  unfoldable pub delete : Replicator E → Text → Replicator E
  delete r key = record r { store = Map.remove r.store key }

  -- The subscribers that `notify` calls, in order; `update` and `delete` call it last.
  unfoldable pub notify : Replicator E → Text → List ℕ
  notify r key = at_key (Map.get r.subscribers key)

  unfoldable pub subscriber_count : Replicator E → Text → ℕ
  subscriber_count r key = length (at_key (Map.get r.subscribers key))

  -- The token's id, and the replicator after.
  unfoldable pub subscribe : Replicator E → Text → ℕ × Replicator E
  subscribe r key = (
    r.next_sub_id,
    record r {
      subscribers =
          Map.insert r.subscribers key (at_key (Map.get r.subscribers key) ++ r.next_sub_id ∷ []);
      next_sub_id = (r.next_sub_id + 1) % u64_mod;
    },
  )

  unfoldable pub unsubscribe_by_id : Replicator E → Text → ℕ → Replicator E
  unsubscribe_by_id r key id = record r {
    subscribers = retained r.subscribers key id (Map.get r.subscribers key);
  }

-- A consistency level, without its timeout.
pub data WriteConsistency : Type 0 where
  local : WriteConsistency
  everyone : WriteConsistency
  majority : WriteConsistency
  from : ℕ → WriteConsistency

unfoldable pub required_acks : WriteConsistency → ℕ → ℕ
required_acks local cluster_size = 1
required_acks everyone cluster_size = max cluster_size 1
required_acks majority cluster_size = cluster_size / 2 + 1
required_acks (from n) cluster_size = min n (max cluster_size 1)
