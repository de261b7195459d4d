-- ===== src/Sorted.antt =====
-- `sort_by_key` on a text key, which is stable, and the first element of the result.
use atomr.Base.{
  subst, ◌≡◌, refl, Bool, true, false, Option, none, some, List, [], ◌∷◌, arith, Text, text_leb,
  text_leb_refl, text_leb_total, text_leb_trans, if◌then◌else◌, ◌⊎◌, inl, inr, All,
}

abbrev pub In : {A : Type 0} → A → List A → Type 0
In x [] = ⊥
In x (y ∷ l) = (y ≡ x) ⊎ In x l

pub All-In : {A : Type 0} (Holds : A → Type 0) (x : A) (l : List A) → All Holds l → In x l → Holds x
All-In Holds x [] a h = elim h [ ]
All-In Holds x (y ∷ l) a (inl e) = subst Holds e a.0
All-In Holds x (y ∷ l) a (inr h) = All-In Holds x l a.1 h

abbrev pub first {ℓ} : {A : Type ℓ} → List A → Option A
first [] = none
first (x ∷ l) = some x

module _ {A : Type 0} (key : A → Text) where
  insert : A → List A → List A
  insert x [] = x ∷ []
  insert x (y ∷ l) =
      let rest = insert x l in if text_leb (key x) (key y) then x ∷ y ∷ l else y ∷ rest

  unfoldable pub sort_by_key : List A → List A
  unfolding insert
  sort_by_key [] = []
  sort_by_key (x ∷ l) = insert x (sort_by_key l)

  abbrev pub IsLeast : A → List A → Type 0
  IsLeast x l = All (λ y. text_leb (key x) (key y) ≡ true) l

  -- The first of two, the earlier one on a tie.
  abbrev pub lesser : A → Option A → A
  lesser x none = x
  lesser x (some y) = if text_leb (key x) (key y) then x else y

  first-insert : (x : A) (l : List A) → first (insert x l) ≡ some (lesser x (first l))
  unfolding insert
  first-insert x [] = refl
  first-insert x (y ∷ l) = ground arith

  IsLeast-trans :
      (x y : A) (l : List A) → text_leb (key x) (key y) ≡ true → IsLeast y l → IsLeast x l
  IsLeast-trans x y [] h a = tt
  IsLeast-trans x y (z ∷ l) h a =
      (text_leb_trans (key x) (key y) (key z) h a.0, IsLeast-trans x y l h a.1)

  -- What the first of the sorted list is.
  abbrev pub Chooses : Option A → List A → Type 0
  Chooses none l = l ≡ []
  Chooses (some x) l = In x l × IsLeast x l

  Chooses-cons :
      (x : A) (o : Option A) (l : List A) → Chooses o l → Chooses (some (lesser x o)) (x ∷ l)
  Chooses-cons x none [] h = (inl refl, (text_leb_refl (key x), tt))
  Chooses-cons x none (y ∷ l) h = absurd (cc)
  Chooses-cons x (some y) l h = go (text_leb (key x) (key y)) refl
    where
      go : (b : Bool) → text_leb (key x) (key y) ≡ b → Chooses (some (if b then x else y)) (x ∷ l)
      go true e = (inl refl, (text_leb_refl (key x), IsLeast-trans x y l e h.1))
      go false e = (inr h.0, (text_leb_total (key x) (key y) e, h.1))

  pub first-sort_by_key : (l : List A) → Chooses (first (sort_by_key l)) l
  unfolding sort_by_key
  first-sort_by_key [] = refl
  first-sort_by_key (x ∷ l) =
      rw (first-insert x (sort_by_key l))
        (Chooses-cons x (first (sort_by_key l)) l (first-sort_by_key l))
