-- ===== src/Sharding/Allocation/Least.antt =====
-- The region that the least-shard strategy chooses.
use atomr.Base.{
  ℕ, ◌<◌, ◌≡◌, ap, subst, true, false, ◌⊎◌, inl, inr, some, arith, Text, text_eq, text_leb,
  text_leb_total, text_leb_trans, Option-cases,
}
use atomr.Map.{Map, get, lookup}
use atomr.Sorted.{first}
use atomr.Sharding.Allocation.{entry_le, sort_by, name_of, allocate_least}
use atomr.Sharding.Allocation.Sorting.{first-sort_by, In_of_lookup, lookup_of_In}

entry_le_total : (a b : Text × ℕ) → entry_le a b ≡ false → entry_le b a ≡ true
entry_le_total a b h = ground (arith, text_leb_total a.0 b.0)

entry_le_trans :
    (a b c : Text × ℕ) → entry_le a b ≡ true → entry_le b c ≡ true → entry_le a c ≡ true
entry_le_trans a b c h k = ground (arith, text_leb_trans a.0 b.0 c.0)

-- The region `r` with `n` shards goes before `j` with `m`.
abbrev pub Precedes : Text → ℕ → Text → ℕ → Type 0
Precedes r n j m = (n < m) ⊎ ((n ≡ m) × (text_leb r j ≡ true))

entry_le-Precedes : (a b : Text × ℕ) → entry_le a b ≡ true → Precedes a.0 a.1 b.0 b.1
entry_le-Precedes a b h = ground arith

-- The region that is chosen is known, with a number of shards below that of any other, or equal to it
-- if its name comes first.
pub allocate_least_lem :
    (regions : Map Text ℕ) (r j : Text) (m : ℕ)
    → allocate_least regions ≡ some r
    → get regions j ≡ some m
    → (n : ℕ) × (get regions r ≡ some n) × Precedes r n j m
unfolding allocate_least name_of get
allocate_least_lem regions r j m e h =
    elim (Option-cases (first (sort_by entry_le regions.entries))) [
      | inl o ↦ absurd (cc (ap name_of o, e))
      | inr ((k, n), o) ↦
          let (i, l) =
            first-sort_by entry_le entry_le_total entry_le_trans (k, n) (j, m) regions.entries o
              (In_of_lookup j m regions.entries h) in
          let same : (k ≡ r) = cc (ap name_of o, e) in
          let found = lookup_of_In k n regions.entries regions.unique i in
          (
            n,
            subst (λ s. lookup s regions.entries ≡ some n) same found,
            subst (λ s. Precedes s n j m) same (entry_le-Precedes (k, n) (j, m) l),
          )
    ]
