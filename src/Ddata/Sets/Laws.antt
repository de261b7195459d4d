-- ===== src/Ddata/Sets/Laws.antt =====
-- The sets by what they show: the grow-only set by its items, the observed-remove set by the tags
-- added and removed for each item.
use atomr.Base.{
  ℕ, ◌≡◌, refl, Bool, true, false, not, ◌||◌, Option, none, some, arith, Eq, nat_eq, unwrap_or, ◌∙◌,
  ap, ◌↔◌, sym,
}
use atomr.Map.{
  Map, get, empty, merge_with, get-empty, get-merge_with, merged, is_some, any_of_get, get_of_any,
}
use atomr.Ddata.CrdtMerge.{IsSemilattice}
use atomr.Ddata.Sets.{
  HashSet, extend, GSet, OrSet, has_item, merge_gset, tags_at, survives, contains, extend_tags,
}

pub has-extend {ℓ} :
    {T : Type ℓ} ⦃e : Eq T⦄ (a b : HashSet T) (k : T)
    → is_some (get (extend a b) k) ≡ (is_some (get a k) || is_some (get b k))
unfolding extend
has-extend a b k = rw (get-merge_with (λ _ u. u) a b k) (ground arith)

abbrev tagged : Option (HashSet ℕ) → ℕ → Bool
tagged slot tag = is_some (get (unwrap_or slot empty) tag)

abbrev shown : Option (HashSet ℕ) → Option (HashSet ℕ) → Bool
shown none q = false
shown (some a) q = survives a q

get_of_is_some : (o : Option (Unit {0})) → is_some o ≡ true → o ≡ some tt
get_of_is_some none h = absurd (ground arith)
get_of_is_some (some u) h = refl

shown_of_tag :
    (p q : Option (HashSet ℕ)) (tag : ℕ)
    → tagged p tag ≡ true
    → tagged q tag ≡ false
    → shown p q ≡ true
unfolding survives
shown_of_tag none q tag h n = absurd (ground (arith, get-empty {K = ℕ} {V = Unit {0}} tag))
shown_of_tag (some a) none tag h n =
    any_of_get (λ t _. true) a tag tt (get_of_is_some (get a tag) h) refl
shown_of_tag (some a) (some r) tag h n =
    any_of_get (λ t _. not (is_some (get r t))) a tag tt (get_of_is_some (get a tag) h)
      (ground arith)

not-true : (b : Bool) → not b ≡ true → b ≡ false
not-true b h = ground arith

tag_of_shown :
    (p q : Option (HashSet ℕ))
    → shown p q ≡ true
    → (tag : ℕ) × (tagged p tag ≡ true) × (tagged q tag ≡ false)
unfolding survives
tag_of_shown none q h = absurd (ground arith)
tag_of_shown (some a) none h =
    let (tag, u, g, y) = get_of_any (λ t _. true) a h in
    (tag, ap is_some g, ap is_some (get-empty {K = ℕ} {V = Unit {0}} tag))
tag_of_shown (some a) (some r) h =
    let (tag, u, g, y) = get_of_any (λ t _. not (is_some (get r t))) a h in
    (tag, ap is_some g, not-true (is_some (get r tag)) y)

module _ {T : Type 0} ⦃e : Eq T⦄ where
  abbrev SameItems : GSet T → GSet T → Type 0
  SameItems a b = (x : T) → has_item a x ≡ has_item b x

  has_item-merge :
      (a b : GSet T) (x : T) → has_item (merge_gset a b) x ≡ (has_item a x || has_item b x)
  unfolding has_item merge_gset
  has_item-merge a b x = has-extend a.items b.items x

  -- The merge of grow-only sets is commutative, associative and idempotent on what they contain.
  pub gset-IsSemilattice : IsSemilattice SameItems merge_gset
  gset-IsSemilattice = record {
    idem = λ a x. rw (has_item-merge a a x) (ground arith);
    comm = λ a b x. rw (has_item-merge a b x, has_item-merge b a x) (ground arith);
    assoc = λ a b c x.
        rw
          (
            has_item-merge (merge_gset a b) c x,
            has_item-merge a b x,
            has_item-merge a (merge_gset b c) x,
            has_item-merge b c x,
          )
          (ground arith);
  }

  -- A tag is recorded for an item.
  unfoldable pub has_tag : Map T (HashSet ℕ) → T → ℕ → Bool
  has_tag m item tag = is_some (get (tags_at m item) tag)

  pub has_tag-merge_with :
      (m n : Map T (HashSet ℕ)) (item : T) (tag : ℕ)
      → has_tag (merge_with extend_tags m n) item tag ≡ (has_tag m item tag || has_tag n item tag)
  unfolding has_tag
  has_tag-merge_with m n item tag =
      rw (get-merge_with extend_tags m n item) (go (get m item) (get n item))
    where
      go :
          (p q : Option (HashSet ℕ))
          → is_some (get (unwrap_or (merged extend_tags p q) empty) tag)
            ≡ (is_some (get (unwrap_or p empty) tag) || is_some (get (unwrap_or q empty) tag))
      go p none = ground (arith, get-empty {K = ℕ} {V = Unit {0}} tag)
      go p (some v) = has-extend (unwrap_or p empty) v tag

  -- Two sets that record the same tags, added and removed, for every item.
  pub record SameTags (a b : OrSet T) : Type 0 where
    pub adds : (item : T) (tag : ℕ) → has_tag a.adds item tag ≡ has_tag b.adds item tag
    pub removes : (item : T) (tag : ℕ) → has_tag a.removes item tag ≡ has_tag b.removes item tag
    pub counter : a.counter ≡ b.counter

  contains-shown :
      (s : OrSet T) (item : T) → contains s item ≡ shown (get s.adds item) (get s.removes item)
  unfolding contains
  contains-shown s item = ground arith

  -- `contains` holds exactly if some tag of the item was added and not removed.
  pub contains_iff :
      (s : OrSet T) (item : T)
      → (contains s item ≡ true)
        ↔ ((tag : ℕ) × (has_tag s.adds item tag ≡ true) × (has_tag s.removes item tag ≡ false))
  unfolding has_tag
  contains_iff s item = (
    λ h. tag_of_shown (get s.adds item) (get s.removes item) (sym (contains-shown s item) ∙ h),
    λ (tag, a, r).
        contains-shown s item ∙ shown_of_tag (get s.adds item) (get s.removes item) tag a r,
  )
