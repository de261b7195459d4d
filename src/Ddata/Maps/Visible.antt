-- ===== src/Ddata/Maps/Visible.antt =====
-- What the replicated maps of crates/atomr-distributed-data/src/maps.rs show at a key after each operation.
use atomr.Base.{
  ℕ, ◌+◌, ◌%◌, ◌<◌, ◌≤◌, ◌≡◌, true, false, ◌&&◌, Option, none, some, arith, Eq, ◌==◌, ◌∙◌, ap, sym,
  if◌then◌else◌, Option-cases, inl, inr, u64_mod, beq_refl, eq_of_beq, ltb,
}
use atomr.Map.{Map, empty, insert, merge_with, get-empty, get-insert, get-merge_with, merged}
use atomr.Map
use atomr.Ddata.Maps.OrMap.{OrMap, visible}
use atomr.Ddata.Maps.OrMap
use atomr.Ddata.Maps.LwwMap.{LwwMap, later, value_of}
use atomr.Ddata.Maps.LwwMap
use atomr.Ddata.Maps.OrMultiMap.{OrMultiMap}
use atomr.Ddata.Maps.OrMultiMap
use atomr.Ddata.Sets.{OrSet}
use atomr.Ddata.Sets
use atomr.Ddata.Sets.OrSetLaws.{contains-remove}

tie {ℓ} : {V : Type ℓ} (t : ℕ) (v w : V) → some (if ltb t t then w else v) ≡ some v
tie t v w = ground arith

at_key {ℓ κ} :
    {K : Type ℓ} {W : Type κ} ⦃e : Eq K⦄ (m : Map K W) (k j : K) {o : Option W}
    → Map.get m k ≡ o
    → (k == j) ≡ true
    → Map.get m j ≡ o
at_key m k j h y = ap (λ i. Map.get m i) (sym (eq_of_beq y)) ∙ h

module _ {K V : Type 0} ⦃e : Eq K⦄ where
  -- A removal hides the key and leaves what is shown at every other key as it was.
  pub or_map_get-remove :
      (m : OrMap K V) (k j : K)
      → OrMap.get (OrMap.remove m k) j ≡ (if k == j then none else OrMap.get m j)
  unfolding OrMap.get OrMap.remove
  or_map_get-remove m k j = elim (Option-cases (Map.get m.entries k)) [
    | inl n ↦ rw (n, OrMap.remove) (ground (arith, at_key m.entries k j n))
    | inr (e, h) ↦
        rw (h, OrMap.remove)
          (ground (arith, get-insert m.tombstones k e.0 j, at_key m.entries k j h))
  ]

  -- No tombstone lies above the counter.
  abbrev pub HasOldTombstones : OrMap K V → Type 0
  HasOldTombstones m = (j : K) (t : ℕ) → Map.get m.tombstones j ≡ some t → t ≤ m.counter

  -- A write shows its value, whatever was removed before, and leaves what is shown at every other key
  -- as it was, if no tombstone lies above the counter and the counter does not wrap.
  pub or_map_get-put :
      (m : OrMap K V) (k j : K) (v : V)
      → HasOldTombstones m
      → m.counter + 1 < u64_mod
      → OrMap.get (OrMap.put m k v) j ≡ (if k == j then some v else OrMap.get m j)
  unfolding OrMap.get OrMap.put
  or_map_get-put m k j v h w = elim (Option-cases (Map.get m.tombstones j)) [
    | inl n ↦ ground (arith, get-insert m.entries k ((m.counter + 1) % u64_mod, v) j)
    | inr (t, f) ↦ ground (arith, get-insert m.entries k ((m.counter + 1) % u64_mod, v) j, h j t f)
  ]

  -- What a map holds at a key after a merge is the later of the two replicas' entries, its own if they
  -- were written at one time.
  pub lww_map-merge :
      (a b : LwwMap K V) (k : K) (s t : ℕ) (v w : V)
      → Map.get a.entries k ≡ some (s, v)
      → Map.get b.entries k ≡ some (t, w)
      → LwwMap.get (LwwMap.merge a b) k ≡ some (if ltb s t then w else v)
  unfolding LwwMap.get LwwMap.merge
  lww_map-merge a b k s t v w f g =
      rw (get-merge_with later a.entries b.entries k) (rw (f, g) (ground arith))

  written : (k : K) (v : V) (t : ℕ) → Map.get (LwwMap.put LwwMap.new k v t).entries k ≡ some (t, v)
  unfolding LwwMap.put LwwMap.new
  written k v t =
      rw (get-empty {V = ℕ × V} k, LwwMap.put)
        (ground (arith, get-insert (LwwMap.new {V = V}).entries k (t, v) k, beq_refl k))

  -- Two replicas that write a key at one time each keep their own value when they merge: the merge
  -- is not commutative.
  pub lww_map_tie :
      (k : K) (t : ℕ) (v w : V)
      → (LwwMap.get (LwwMap.merge (LwwMap.put LwwMap.new k v t) (LwwMap.put LwwMap.new k w t)) k
          ≡ some v)
        × (LwwMap.get (LwwMap.merge (LwwMap.put LwwMap.new k w t) (LwwMap.put LwwMap.new k v t)) k
            ≡ some w)
  lww_map_tie k t v w = (
    lww_map-merge (LwwMap.put LwwMap.new k v t) (LwwMap.put LwwMap.new k w t) k t t v w
          (written k v t) (written k w t)
        ∙ tie t v w,
    lww_map-merge (LwwMap.put LwwMap.new k w t) (LwwMap.put LwwMap.new k v t) k t t w v
          (written k w t) (written k v t)
        ∙ tie t w v,
  )

module _ {K V : Type 0} ⦃e : Eq K⦄ ⦃f : Eq V⦄ where
  -- A removal takes the one value from the one key, and leaves every other as it was.
  pub multi_map_contains-remove :
      (m : OrMultiMap K V) (k j : K) (v w : V)
      → OrMultiMap.contains (OrMultiMap.remove m k v) j w
        ≡ (if (k == j) && (v == w) then false else OrMultiMap.contains m j w)
  unfolding OrMultiMap.contains OrMultiMap.remove
  multi_map_contains-remove m k j v w = elim (Option-cases (Map.get m.entries k)) [
    | inl n ↦ rw (n, OrMultiMap.remove) (ground (arith, at_key m.entries k j n))
    | inr (s, h) ↦
        rw (h, OrMultiMap.remove)
          (ground (
            arith,
            get-insert m.entries k (Sets.remove s v) j,
            at_key m.entries k j h,
            contains-remove s v w,
          ))
  ]
