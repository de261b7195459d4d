-- ===== src/Sharding/Allocation/Sorting.antt =====
-- What `sort_by` keeps, and what comes first.
use atomr.Base.{
  ◌≡◌, refl, sym, ap, subst, ◌∙◌, Bool, true, false, ◌⊎◌, inl, inr, none, some, List, [], ◌∷◌,
  arith, Bool-cases, Eq, beq_refl,
}
use atomr.Map.{lookup, IsUnique}
use atomr.Sorted.{In, first}
use atomr.Sharding.Allocation.{place, sort_by}

module _ {A : Type 0} (le : A → A → Bool) where
  In-place : (x y : A) (l : List A) → In y (place le x l) → (x ≡ y) ⊎ In y l
  unfolding place
  In-place x y [] (inl e) = inl e
  In-place x y [] (inr n) = absurd n
  In-place x y (z ∷ l) h = ground (arith, In-place x y l)

  -- What stands in the sorted list stood in the list.
  pub In-sort_by : (y : A) (l : List A) → In y (sort_by le l) → In y l
  unfolding sort_by
  In-sort_by y [] h = h
  In-sort_by y (x ∷ l) h = ground (arith, In-place x y (sort_by le l) h, In-sort_by y l)

-- A total preorder, as a test.
abbrev pub IsTotal : {A : Type 0} → (A → A → Bool) → Type 0
IsTotal {A} le = (a b : A) → le a b ≡ false → le b a ≡ true

abbrev pub IsTransitive : {A : Type 0} → (A → A → Bool) → Type 0
IsTransitive {A} le = (a b c : A) → le a b ≡ true → le b c ≡ true → le a c ≡ true

module _ {A : Type 0} (le : A → A → Bool) (total : IsTotal le) (trans : IsTransitive le) where
  -- Nothing in a list is before `x`.
  IsFirst : A → List A → Type 0
  IsFirst x [] = Unit
  IsFirst x (y ∷ l) = (le x y ≡ true) × IsFirst x l

  reflexive : (x : A) → le x x ≡ true
  reflexive x = elim (Bool-cases (le x x)) [ inl h ↦ h | inr h ↦ total x x h ]

  IsFirst-trans : (x y : A) (l : List A) → le x y ≡ true → IsFirst y l → IsFirst x l
  unfolding IsFirst
  IsFirst-trans x y [] h f = tt
  IsFirst-trans x y (z ∷ l) h f = (trans x y z h f.0, IsFirst-trans x y l h f.1)

  IsFirst-In : (x y : A) (l : List A) → IsFirst x l → In y l → le x y ≡ true
  unfolding IsFirst
  IsFirst-In x y [] f h = absurd h
  IsFirst-In x y (z ∷ l) f (inl e) = ap (λ k. le x k) (sym e) ∙ f.0
  IsFirst-In x y (z ∷ l) f (inr h) = IsFirst-In x y l f.1 h

  -- The sorted list is empty if the other is, and nothing in the other is before its first element.
  Leads : List A → List A → Type 0
  Leads [] l = l ≡ []
  Leads (x ∷ s) l = IsFirst x l

  place-Leads : (x : A) (s l : List A) → Leads s l → Leads (place le x s) (x ∷ l)
  unfolding Leads place IsFirst
  place-Leads x [] l h = rw h (reflexive x, tt)
  place-Leads x (y ∷ s) l h = elim (Bool-cases (le x y)) [
    | inl e ↦ rw (place, e) (reflexive x, IsFirst-trans x y l e h)
    | inr e ↦ rw (place, e) (total x y e, h)
  ]

  sort_by-Leads : (l : List A) → Leads (sort_by le l) l
  unfolding Leads sort_by
  sort_by-Leads [] = refl
  sort_by-Leads (x ∷ l) = place-Leads x (sort_by le l) l (sort_by-Leads l)

  first-Leads : (x : A) (s l : List A) → first s ≡ some x → Leads s l → IsFirst x l
  unfolding Leads
  first-Leads x [] l e h = absurd (cc e)
  first-Leads x (y ∷ s) l e h = let same : (y ≡ x) = cc e in subst (λ k. IsFirst k l) same h

  first-In : (x : A) (s : List A) → first s ≡ some x → In x s
  first-In x [] e = absurd (cc e)
  first-In x (y ∷ s) e = inl (cc e)

  -- The first of the sorted list is in the list, and no element is before it.
  pub first-sort_by :
      (x y : A) (l : List A) → first (sort_by le l) ≡ some x → In y l → In x l × (le x y ≡ true)
  first-sort_by x y l e h = (
    In-sort_by le x l (first-In x (sort_by le l) e),
    IsFirst-In x y l (first-Leads x (sort_by le l) l e (sort_by-Leads l)) h,
  )

-- What is found in an association list stands in it, and the other way round.
module _ {K : Type 0} ⦃e : Eq K⦄ {V : Type 0} where
  pub In_of_lookup : (k : K) (v : V) (l : List (K × V)) → lookup k l ≡ some v → In (k, v) l
  unfolding lookup
  In_of_lookup k v [] h = absurd (cc h)
  In_of_lookup k v ((j, w) ∷ l) h = ground (arith, e.test_iff j k, In_of_lookup k v l)

  present : (k : K) (v : V) (l : List (K × V)) → In (k, v) l → lookup k l ≡ none → ⊥
  unfolding lookup
  present k v [] h n = h
  present k v ((j, w) ∷ l) h n = ground (arith, beq_refl k, present k v l)

  pub lookup_of_In :
      (k : K) (v : V) (l : List (K × V)) → IsUnique l → In (k, v) l → lookup k l ≡ some v
  unfolding lookup
  lookup_of_In k v [] u h = absurd h
  lookup_of_In k v ((j, w) ∷ l) u (inl q) = ground (arith, beq_refl k)
  lookup_of_In k v ((j, w) ∷ l) u (inr h) =
      ground (arith, e.test_iff j k, lookup_of_In k v l u.1 h, present k v l h)
