-- ===== src/Map/Iterate.antt =====
-- Iteration over the entries of a map: `any`, and the sum of the values.
use atomr.Base.{
  ℕ, ◌+◌, ◌≡◌, refl, Bool, true, false, ◌||◌, none, some, List, [], ◌∷◌, arith, Eq, unwrap_or,
  beq_refl, Bool-cases, inl, inr, sym,
}
use atomr.Map.Assoc.{lookup, without, IsUnique, lookup-without, without-IsUnique, set}
use atomr.Map.Defs.{Map, get, insert}

module _ {ℓ κ} {K : Type ℓ} ⦃e : Eq K⦄ {V : Type κ} where
  any_entry : (K → V → Bool) → List (K × V) → Bool
  any_entry p [] = false
  any_entry p ((k, v) ∷ l) = p k v || any_entry p l

  -- `m.iter().any(|(k, v)| p(k, v))`
  unfoldable pub any : (K → V → Bool) → Map K V → Bool
  unfolding any_entry
  any p m = any_entry p m.entries

  any_entry_of_lookup :
      (p : K → V → Bool) (l : List (K × V)) (k : K) (v : V)
      → lookup k l ≡ some v
      → p k v ≡ true
      → any_entry p l ≡ true
  unfolding any_entry lookup
  any_entry_of_lookup p [] k v h y = cc
  any_entry_of_lookup p ((j, w) ∷ l) k v h y =
      ground (arith, e.test_iff j k, any_entry_of_lookup p l k v)

  lookup_of_any_entry :
      (p : K → V → Bool) (l : List (K × V))
      → IsUnique l
      → any_entry p l ≡ true
      → (k : K) × (v : V) × (lookup k l ≡ some v) × (p k v ≡ true)
  unfolding any_entry lookup
  lookup_of_any_entry p [] u h = absurd (ground arith)
  lookup_of_any_entry p ((j, w) ∷ l) u h = elim (Bool-cases (p j w)) [
    | inl y ↦ (j, w, ground (arith, beq_refl j), y)
    | inr n ↦ deeper (lookup_of_any_entry p l u.1 (ground arith))
  ]
    where
      Found : List (K × V) → Type (ℓ ⊔ κ)
      Found m = (k : K) × (v : V) × (lookup k m ≡ some v) × (p k v ≡ true)

      deeper : Found l → Found ((j, w) ∷ l)
      deeper (k, v, f, y) = (k, v, ground (arith, e.test_iff j k), y)

  pub any_of_get :
      (p : K → V → Bool) (m : Map K V) (k : K) (v : V)
      → get m k ≡ some v
      → p k v ≡ true
      → any p m ≡ true
  unfolding any get
  any_of_get p m k v h y = any_entry_of_lookup p m.entries k v h y

  pub get_of_any :
      (p : K → V → Bool) (m : Map K V)
      → any p m ≡ true
      → (k : K) × (v : V) × (get m k ≡ some v) × (p k v ≡ true)
  unfolding any get
  get_of_any p m h = lookup_of_any_entry p m.entries m.unique h

module _ {ℓ} {K : Type ℓ} ⦃e : Eq K⦄ where
  unfoldable pub sum : List (K × ℕ) → ℕ
  sum [] = 0
  sum ((k, v) ∷ l) = v + sum l

  -- `m.values().sum()`, before any wrap.
  unfoldable pub total : Map K ℕ → ℕ
  unfolding sum
  total m = sum m.entries

  abbrev at : List (K × ℕ) → K → ℕ
  at l k = unwrap_or (lookup k l) 0

  -- The value at a key, 0 where there is none.
  abbrev pub count : Map K ℕ → K → ℕ
  count m k = unwrap_or (get m k) 0

  sum-set : (l : List (K × ℕ)) (k : K) (v : ℕ) → sum (set k v l) + at l k ≡ sum l + v
  unfolding sum set lookup
  sum-set [] k v = omega arith
  sum-set ((j, w) ∷ l) k v = ground (arith, sum-set l k v)

  pub total-insert : (m : Map K ℕ) (k : K) (v : ℕ) → total (insert m k v) + count m k ≡ total m + v
  unfolding total insert get
  total-insert m k v = sum-set m.entries k v

  sum-without-none : (l : List (K × ℕ)) (k : K) → lookup k l ≡ none → sum (without k l) ≡ sum l
  unfolding sum without lookup
  sum-without-none [] k h = refl
  sum-without-none ((j, w) ∷ l) k h = ground (arith, sum-without-none l k)

  sum-without : (l : List (K × ℕ)) (k : K) → IsUnique l → sum l ≡ at l k + sum (without k l)
  unfolding sum without lookup
  sum-without [] k u = omega arith
  sum-without ((j, w) ∷ l) k u =
      ground (arith, e.test_iff j k, sum-without l k u.1, sum-without-none l k)

  sum_of_none : (l : List (K × ℕ)) → IsUnique l → ((k : K) → at l k ≡ 0) → sum l ≡ 0
  unfolding sum lookup
  sum_of_none [] u h = refl
  sum_of_none ((j, w) ∷ l) u h = ground (arith, h j, beq_refl j, sum_of_none l u.1 rest)
    where
      rest : (k : K) → at l k ≡ 0
      rest k = ground (arith, h k, e.test_iff j k)

  -- The sum depends only on the value at each key.
  sum_of_same :
      (l m : List (K × ℕ)) → IsUnique l → IsUnique m → ((k : K) → at l k ≡ at m k) → sum l ≡ sum m
  unfolding sum lookup
  sum_of_same [] m u v h = sym (sum_of_none m v (λ k. sym (h k)))
  sum_of_same ((j, w) ∷ l) m u v h = ground (
    arith,
    h j,
    beq_refl j,
    sum-without m j v,
    sum_of_same l (without j m) u.1 (without-IsUnique j m v) rest,
  )
    where
      rest : (k : K) → at l k ≡ at (without j m) k
      rest k = ground (arith, h k, e.test_iff j k, lookup-without j k m)

  pub total_of_count : (m n : Map K ℕ) → ((k : K) → count m k ≡ count n k) → total m ≡ total n
  unfolding total get
  total_of_count m n h = sum_of_same m.entries n.entries m.unique n.unique h
