-- ===== src/Keyed/Unique.antt =====
-- Lists in which no key stands twice.
use atomr.Base.{
  ◌≡◌, refl, Bool, Option, none, some, List, [], ◌∷◌, ◌++◌, arith, Eq, ◌==◌, if◌then◌else◌, map,
  Bool-cases, Option-cases, inl, inr,
}
use mathlib.Core.Option
use atomr.Keyed.{find, replace, upsert, retain}

abbrev pub after_replace {ℓ} : {A : Type ℓ} → Option A → A → Option A
after_replace none y = none
after_replace (some x) y = some y

abbrev pub or_else {ℓ} : {A : Type ℓ} → Option A → Option A → Option A
or_else none o = o
or_else (some x) o = some x

pub or_else-none {ℓ} : {A : Type ℓ} (o : Option A) → or_else o none ≡ o
or_else-none none = refl
or_else-none (some x) = refl

abbrev pub kept {ℓ} : {A : Type ℓ} → (A → Bool) → Option A → Option A
kept p none = none
kept p (some x) = if p x then some x else none

module _ {ℓ κ} {A : Type ℓ} {K : Type κ} ⦃e : Eq K⦄ (key : A → K) where
  abbrev pub Distinct : List A → Type ℓ
  Distinct [] = Unit
  Distinct (x ∷ l) = (find key l (key x) ≡ none) × Distinct l

  pub key-find : (l : List A) (k : K) (x : A) → find key l k ≡ some x → key x ≡ k
  unfolding find
  key-find [] k x h = cc
  key-find (y ∷ l) k x h = ground (arith, e.test_iff (key y) k, key-find l k x)

  -- A lookup after an element is overwritten by one with the same key.
  pub find-replace :
      (l : List A) (j k : K) (y : A)
      → key y ≡ j
      → find key (replace key l j y) k
        ≡ (if j == k then after_replace (find key l j) y else find key l k)
  unfolding find replace
  find-replace [] j k y h = ground arith
  find-replace (x ∷ l) j k y h = ground (
    arith,
    e.test_iff j k,
    e.test_iff (key x) j,
    e.test_iff (key x) k,
    e.test_iff (key y) k,
    find-replace l j k y,
  )

  pub replace-Distinct :
      (l : List A) (k : K) (y : A) → key y ≡ k → Distinct l → Distinct (replace key l k y)
  unfolding replace
  replace-Distinct [] k y h d = tt
  replace-Distinct (x ∷ l) k y h d = ground (
    arith,
    e.test_iff (key x) k,
    e.test_iff k (key x),
    find-replace l k (key x) y,
    replace-Distinct l k y h d.1,
  )

  pub find-append :
      (l m : List A) (k : K) → find key (l ++ m) k ≡ or_else (find key l k) (find key m k)
  unfolding find
  find-append [] m k = refl
  find-append (x ∷ l) m k = ground (arith, find-append l m k)

  append_one-Distinct :
      (l : List A) (y : A) → find key l (key y) ≡ none → Distinct l → Distinct (l ++ y ∷ [])
  unfolding find
  append_one-Distinct [] y h d = (refl, tt)
  append_one-Distinct (x ∷ l) y h d = ground (
    arith,
    e.test_iff (key x) (key y),
    e.test_iff (key y) (key x),
    find-append l (y ∷ []) (key x),
    append_one-Distinct l y,
  )

  pub upsert-Distinct : (l : List A) (y : A) → Distinct l → Distinct (upsert key l y)
  unfolding upsert
  upsert-Distinct l y d =
      ground (arith, replace-Distinct l (key y) y refl d, append_one-Distinct l y)

  -- A lookup after an upsert: the new element at its key, and the old one elsewhere.
  pub find-upsert :
      (l : List A) (y : A) (k : K)
      → find key (upsert key l y) k ≡ (if key y == k then some y else find key l k)
  unfolding upsert
  find-upsert l y k = ground (
    arith,
    e.test_iff (key y) k,
    find-replace l (key y) k y refl,
    find-append l (y ∷ []) k,
    find_one y k,
  )
    where
      find_one : (y : A) (k : K) → find key (y ∷ []) k ≡ (if key y == k then some y else none)
      find_one y k = unfold find in refl

  pub find-retain-none :
      (p : A → Bool) (l : List A) (k : K) → find key l k ≡ none → find key (retain p l) k ≡ none
  unfolding find retain
  find-retain-none p [] k h = refl
  find-retain-none p (x ∷ l) k h = ground (arith, find-retain-none p l k)

  pub retain-Distinct : (p : A → Bool) (l : List A) → Distinct l → Distinct (retain p l)
  unfolding retain
  retain-Distinct p [] d = tt
  retain-Distinct p (x ∷ l) d =
      ground (arith, find-retain-none p l (key x) d.0, retain-Distinct p l d.1)

  pub find-retain :
      (p : A → Bool) (l : List A) (k : K)
      → Distinct l
      → find key (retain p l) k ≡ kept p (find key l k)
  unfolding find retain
  find-retain p [] k d = refl
  find-retain p (x ∷ l) k d =
      ground (arith, e.test_iff (key x) k, find-retain p l k d.1, find-retain-none p l k)

  pub find-append_here :
      (l m : List A) (x : A) → find key l (key x) ≡ none → find key (l ++ x ∷ m) (key x) ≡ some x
  unfolding find
  find-append_here [] m x h = ground (arith, e.test_iff (key x) (key x))
  find-append_here (y ∷ l) m x h = ground (arith, find-append_here l m x)

  pub replace-append_here :
      (l m : List A) (x y : A)
      → find key l (key x) ≡ none
      → replace key (l ++ x ∷ m) (key x) y ≡ l ++ y ∷ m
  unfolding find replace
  replace-append_here [] m x y h = ground (arith, e.test_iff (key x) (key x))
  replace-append_here (z ∷ l) m x y h = ground (arith, replace-append_here l m x y)

  -- No key of the second list stands in the first.
  abbrev pub Apart : List A → List A → Type ℓ
  Apart l [] = Unit
  Apart l (x ∷ m) = (find key l (key x) ≡ none) × Apart l m

  pub Apart-append_one :
      (l m : List A) (k : K) (y : A)
      → key y ≡ k
      → find key m k ≡ none
      → Apart l m
      → Apart (l ++ y ∷ []) m
  unfolding find
  Apart-append_one l [] k y h n a = tt
  Apart-append_one l (x ∷ m) k y h n a = ground (
    arith,
    find-append l (y ∷ []) (key x),
    e.test_iff (key y) (key x),
    e.test_iff (key x) k,
    Apart-append_one l m k y,
  )

  pub find-map :
      (f : A → A) (l : List A) (k : K)
      → ((x : A) → key (f x) ≡ key x)
      → find key (map f l) k ≡ Option.map f (find key l k)
  unfolding find
  find-map f [] k h = refl
  find-map f (x ∷ l) k h =
      rw (h x) (elim (Bool-cases (key x == k)) [ inl y ↦ rw y | inr n ↦ rw n (find-map f l k h) ])

  pub map-Distinct :
      (f : A → A) (l : List A) → ((x : A) → key (f x) ≡ key x) → Distinct l → Distinct (map f l)
  map-Distinct f [] h d = tt
  map-Distinct f (x ∷ l) h d = (rw (h x, find-map f l (key x) h, d.0) refl, map-Distinct f l h d.1)

  -- One upsert after another.
  abbrev pub upsert_all : List A → List A → List A
  upsert_all l [] = l
  upsert_all l (y ∷ ys) = upsert_all (upsert key l y) ys

  -- The last of the upserted elements with the key stands, or what was there.
  pub find-upsert_all_other :
      (l ys : List A) (k : K) → find key ys k ≡ none → find key (upsert_all l ys) k ≡ find key l k
  unfolding find
  find-upsert_all_other l [] k h = refl
  find-upsert_all_other l (y ∷ ys) k h =
      ground (arith, find-upsert_all_other (upsert key l y) ys k, find-upsert l y k)

  pub find-upsert_all :
      (l ys : List A) (k : K) (y : A)
      → Distinct ys
      → find key ys k ≡ some y
      → find key (upsert_all l ys) k ≡ some y
  unfolding find
  find-upsert_all l [] k y u h = cc
  find-upsert_all l (x ∷ ys) k y u h = ground (
    arith,
    e.test_iff (key x) k,
    find-upsert l x k,
    find-upsert_all (upsert key l x) ys k y,
    find-upsert_all_other (upsert key l x) ys k,
  )

  pub find-upsert_all-or_else :
      (l ys : List A) (k : K)
      → Distinct ys
      → find key (upsert_all l ys) k ≡ or_else (find key ys k) (find key l k)
  find-upsert_all-or_else l ys k u = elim (Option-cases (find key ys k)) [
    | inl e ↦ rw e (find-upsert_all_other l ys k e)
    | inr (y, e) ↦ rw e (find-upsert_all l ys k y u e)
  ]

  pub upsert_all-append :
      (l xs ys : List A) → upsert_all l (xs ++ ys) ≡ upsert_all (upsert_all l xs) ys
  upsert_all-append l [] ys = refl
  upsert_all-append l (x ∷ xs) ys = upsert_all-append (upsert key l x) xs ys

-- An element found by one key and overwritten by one that agrees with it in another key.
module _ {ℓ κ μ} {A : Type ℓ} {K : Type κ} {J : Type μ} ⦃e : Eq K⦄ ⦃f : Eq J⦄ (key : A → K)
    (by : A → J) where
  find-replace_by :
      (l : List A) (j : J) (x y : A) (k : K)
      → find by l j ≡ some x
      → key y ≡ key x
      → find key l k ≡ none
      → find key (replace by l j y) k ≡ none
  unfolding find replace
  find-replace_by [] j x y k h q n = refl
  find-replace_by (z ∷ l) j x y k h q n =
      ground (arith, find-replace_by l j x y k, e.test_iff (key y) k, e.test_iff (key z) k)

  pub replace_by-Distinct :
      (l : List A) (j : J) (x y : A)
      → find by l j ≡ some x
      → key y ≡ key x
      → Distinct key l
      → Distinct key (replace by l j y)
  unfolding find replace
  replace_by-Distinct [] j x y h q d = tt
  replace_by-Distinct (z ∷ l) j x y h q d =
      ground (arith, find-replace_by l j x y (key z), replace_by-Distinct l j x y)
