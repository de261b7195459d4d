-- ===== src/Sharding/Coordinator/Schedule.antt =====
-- What a scheduling tick asks for, and where new shards go.
use atomr.Base.{
  ℕ, ◌+◌, ◌≤◌, ◌≡◌, refl, sym, ap, subst, ◌∙◌, Bool, true, false, ◌⊎◌, inl, inr, Option, none, some,
  List, [], ◌∷◌, ◌++◌, arith, Text, text_eq, text_leb, text_beq_iff, if◌then◌else◌, unwrap_or,
  Option-cases, ◌==◌,
}
use atomr.Map.{Map, get, insert, empty, get-insert, get-empty}
use atomr.Sorted.{In}
use atomr.Sharding.Allocation.{
  ShardAllocationStrategy, LeastShardAllocationStrategy, least_shard, allocate_least,
}
use atomr.Sharding.Allocation.Sorting.{In-sort_by, lookup_of_In}
use atomr.Sharding.Allocation.Least.{allocate_least_lem, Precedes}
use atomr.Sharding.Handoff.{
  HandoffCoordinator, HandoffState, idle, beginning, handing_off, stopped, started, state,
}
use atomr.Sharding.Coordinator.{
  ShardCoordinator, region_shard_counts, count_regions, allocate_with_strategy, place_shard,
  region_for, rebalance_with_strategy, RebalanceAction, begin_handoff, allocate_to, is_stopped,
  can_begin, allocate_action, begin_action, snapshot, promote, pick, step,
}

-- How many shards of the table are in a region.
unfoldable pub hosted : Text → List (Text × Text) → ℕ
hosted r [] = 0
hosted r ((shard, region) ∷ l) = (if region == r then 1 else 0) + hosted r l

counted :
    (out : Map Text ℕ) (l : List (Text × Text)) (r : Text)
    → unwrap_or (get (count_regions out l) r) 0 ≡ unwrap_or (get out r) 0 + hosted r l
unfolding count_regions hosted
counted out [] r = omega arith
counted out ((shard, region) ∷ l) r = ground (
  arith,
  text_beq_iff region r,
  get-insert out region (unwrap_or (get out region) 0 + 1) r,
  counted (insert out region (unwrap_or (get out region) 0 + 1)) l r,
)

pub region_counted :
    (c : ShardCoordinator) (r : Text)
    → unwrap_or (get (region_shard_counts c) r) 0 ≡ hosted r c.allocation.entries
unfolding region_shard_counts
region_counted c r = counted empty c.allocation.entries r ∙ rw (get-empty {V = ℕ} r) (omega arith)

place_shard_answer :
    (c : ShardCoordinator) (shard : Text) (o : Option Text) → (place_shard c shard o).1 ≡ o
unfolding place_shard
place_shard_answer c shard none = refl
place_shard_answer c shard (some chosen) = refl

-- A shard that is placed with the least-shard strategy goes to a region that hosts no more shards than
-- any other that hosts some.
pub placed_on_least :
    (c : ShardCoordinator) (s : LeastShardAllocationStrategy) (shard r j : Text)
    → (allocate_with_strategy c shard (least_shard s)).1 ≡ some r
    → 1 ≤ hosted j c.allocation.entries
    → hosted r c.allocation.entries ≤ hosted j c.allocation.entries
unfolding allocate_with_strategy least_shard
placed_on_least c s shard r j e h =
    let chosen = sym (place_shard_answer c shard (allocate_least (region_shard_counts c))) ∙ e in
    elim (Option-cases (get (region_shard_counts c) j)) [
      | inl o ↦
          absurd (omega (arith, h, region_counted c j, ap (λ (k : Option ℕ). unwrap_or k 0) o))
      | inr (m, g) ↦
          let (n, f, p) = allocate_least_lem (region_shard_counts c) r j m chosen g in
          fewer n m p (ap (λ (k : Option ℕ). unwrap_or k 0) f)
            (ap (λ (k : Option ℕ). unwrap_or k 0) g)
    ]
  where
    fewer :
        (n m : ℕ)
        → Precedes r n j m
        → unwrap_or (get (region_shard_counts c) r) 0 ≡ n
        → unwrap_or (get (region_shard_counts c) j) 0 ≡ m
        → hosted r c.allocation.entries ≤ hosted j c.allocation.entries
    fewer n m p f g = ground (arith, region_counted c r, region_counted c j)

In-append : {A : Type 0} (x : A) (l m : List A) → In x (l ++ m) → In x l ⊎ In x m
In-append x [] m h = inr h
In-append x (y ∷ l) m (inl e) = inl (inl e)
In-append x (y ∷ l) m (inr h) = ground (arith, In-append x l m h)

-- Nothing of a hand-off is under way.
unfoldable pub IsFree : HandoffState → Type 0
IsFree s = (s ≡ idle) ⊎ ((source : Text) × (target : Text) × (s ≡ started source target))

can_begin-IsFree : (s : HandoffState) → can_begin s ≡ true → IsFree s
unfolding can_begin IsFree
can_begin-IsFree idle h = inl refl
can_begin-IsFree (beginning source) h = absurd (ground arith)
can_begin-IsFree (handing_off source n) h = absurd (ground arith)
can_begin-IsFree (stopped source) h = absurd (ground arith)
can_begin-IsFree (started source target) h = inr (source, target, refl)

stopped_lem : (s : HandoffState) → is_stopped s ≡ true → (source : Text) × (s ≡ stopped source)
unfolding is_stopped
stopped_lem idle h = absurd (ground arith)
stopped_lem (beginning source) h = absurd (ground arith)
stopped_lem (handing_off source n) h = absurd (ground arith)
stopped_lem (stopped source) h = (source, refl)
stopped_lem (started source target) h = absurd (ground arith)

-- What an action that is asked for under a test comes from.
In-guarded :
    {A : Type 0} (x : A) (b : Bool) (l m : List A)
    → In x (elim b [ true ↦ l ++ m | false ↦ m ])
    → ((b ≡ true) × In x l) ⊎ In x m
In-guarded x true l m h = ground (arith, In-append x l m h)
In-guarded x false l m h = inr h

module _ (c : ShardCoordinator) (handoff : HandoffCoordinator)
    (strategy : ShardAllocationStrategy) where
  -- What must hold of an action that is asked for.
  unfoldable pub IsSound : RebalanceAction → Type 0
  IsSound (begin_handoff shard source) =
      In shard (rebalance_with_strategy c strategy)
      × IsFree (state handoff shard)
      × (region_for c shard ≡ some source)
  IsSound (allocate_to shard target) =
      ((source : Text) × (state handoff shard ≡ stopped source))
      × (strategy.allocate_shard shard (region_shard_counts c) ≡ some target)

  allocate_action-IsSound :
      (shard : Text) (o : Option Text) (a : RebalanceAction)
      → is_stopped (state handoff shard) ≡ true
      → strategy.allocate_shard shard (region_shard_counts c) ≡ o
      → In a (allocate_action shard o)
      → IsSound a
  unfolding allocate_action IsSound
  allocate_action-IsSound shard none a s e h = absurd h
  allocate_action-IsSound shard (some target) a s e (inl q) =
      subst IsSound q (stopped_lem (state handoff shard) s, e)
  allocate_action-IsSound shard (some target) a s e (inr n) = absurd n

  begin_action-IsSound :
      (shard : Text) (o : Option Text) (a : RebalanceAction)
      → In shard (rebalance_with_strategy c strategy)
      → can_begin (state handoff shard) ≡ true
      → region_for c shard ≡ o
      → In a (begin_action shard o)
      → IsSound a
  unfolding begin_action IsSound
  begin_action-IsSound shard none a i s e h = absurd h
  begin_action-IsSound shard (some source) a i s e (inl q) =
      subst IsSound q (i, can_begin-IsFree (state handoff shard) s, e)
  begin_action-IsSound shard (some source) a i s e (inr n) = absurd n

  promote-IsSound :
      (l : List (Text × HandoffState)) (a : RebalanceAction)
      → ((shard : Text) (s : HandoffState) → In (shard, s) l → state handoff shard ≡ s)
      → In a (promote c strategy l)
      → IsSound a
  unfolding promote
  promote-IsSound [] a k h = absurd h
  promote-IsSound ((shard, s) ∷ l) a k h =
      let own = k shard s (inl refl) in
      elim (In-guarded a (is_stopped s) _ _ h) [
        | inl (stops, i) ↦ allocate_action-IsSound shard _ a (ap is_stopped own ∙ stops) refl i
        | inr i ↦ promote-IsSound l a (λ shard'. λ s'. λ j. k shard' s' (inr j)) i
      ]

  pick-IsSound :
      (l : List Text) (a : RebalanceAction)
      → ((shard : Text) → In shard l → In shard (rebalance_with_strategy c strategy))
      → In a (pick c handoff l)
      → IsSound a
  unfolding pick
  pick-IsSound [] a k h = absurd h
  pick-IsSound (shard ∷ l) a k h = elim (In-guarded a (can_begin (state handoff shard)) _ _ h) [
    | inl (begins, i) ↦ begin_action-IsSound shard _ a (k shard (inl refl)) begins refl i
    | inr i ↦ pick-IsSound l a (λ shard'. λ j. k shard' (inr j)) i
  ]

  snapshot_state :
      (shard : Text) (s : HandoffState) → In (shard, s) (snapshot handoff) → state handoff shard ≡ s
  unfolding snapshot state get
  snapshot_state shard s h =
      let found =
        lookup_of_In shard s handoff.states.entries handoff.states.unique
          (In-sort_by (λ a b. text_leb a.0 b.0) (shard, s) handoff.states.entries h) in
      ap (λ (o : Option HandoffState). unwrap_or o idle) found

  -- Whatever the strategy: a tick begins a hand-off only for a shard that the strategy picked, of which no
  -- hand-off is under way, and names the region that hosts it; it allocates only a shard whose region
  -- has stopped it, to the region that the strategy gives.
  pub step-IsSound : (a : RebalanceAction) → In a (step c handoff strategy) → IsSound a
  unfolding step
  step-IsSound a h =
      elim (In-append a (promote c strategy (snapshot handoff))
        (pick c handoff (rebalance_with_strategy c strategy)) h) [
          | inl i ↦ promote-IsSound (snapshot handoff) a snapshot_state i
          | inr i ↦ pick-IsSound (rebalance_with_strategy c strategy) a (λ shard. λ j. j) i
        ]
