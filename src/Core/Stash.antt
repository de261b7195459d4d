-- ===== src/Core/Stash.antt =====
-- crates/atomr-core/src/actor/stash.rs: the bounded stash. Its capacity is asserted to be at least 1.
pub mod Latest
use atomr.Base.{ℕ, Bool, Option, none, some, List, [], ◌∷◌, ◌++◌, leb, if◌then◌else◌, length}
use atomr.Core.Queues.Fifo.{pop_front}

pub data StashOverflow : Type 0 where
  drop_oldest : StashOverflow
  drop_newest : StashOverflow
  reject : StashOverflow

pub data StashResult (M : Type 0) : Type 0 where
  stashed : (depth : ℕ) → StashResult M
  rejected : M → StashResult M
  dropped_oldest : M → StashResult M
  dropped_newest : StashResult M

pub record BoundedStash (M : Type 0) : Type 0 where
  pub capacity : ℕ
  pub policy : StashOverflow
  pub buf : List M

module _ {M : Type 0} where
  unfoldable pub new : ℕ → StashOverflow → BoundedStash M
  new capacity policy = record { capacity = capacity; policy = policy; buf = [] }

  unfoldable pub is_full : BoundedStash M → Bool
  is_full s = leb s.capacity (length s.buf)

  -- The oldest message goes and the new one comes.
  unfoldable pub displace : BoundedStash M → List M × Option M → M → BoundedStash M × StashResult M
  displace s (rest, some old) msg = (record s { buf = rest ++ msg ∷ [] }, dropped_oldest old)
  displace s (rest, none) msg =
      (record s { buf = rest ++ msg ∷ [] }, stashed (length (rest ++ msg ∷ [])))

  unfoldable pub stash_full : BoundedStash M → M → StashOverflow → BoundedStash M × StashResult M
  stash_full s msg drop_oldest = displace s (pop_front s.buf) msg
  stash_full s msg drop_newest = (s, dropped_newest)
  stash_full s msg reject = (s, rejected msg)

  unfoldable pub stash : BoundedStash M → M → BoundedStash M × StashResult M
  stash s msg =
      if is_full s
      then stash_full s msg s.policy
      else (record s { buf = s.buf ++ msg ∷ [] }, stashed (length (s.buf ++ msg ∷ [])))

  unfoldable pub unstash_all : BoundedStash M → BoundedStash M × List M
  unstash_all s = (record s { buf = [] }, s.buf)

  unfoldable pub pop : BoundedStash M → BoundedStash M × Option M
  pop s = let (rest, m) = pop_front s.buf in (record s { buf = rest }, m)
