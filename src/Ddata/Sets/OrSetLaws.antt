-- ===== src/Ddata/Sets/OrSetLaws.antt =====
-- The observed-remove set of sets.rs under its operations: what an addition, a removal and a merge
-- show, and what two replicas lose.
use atomr.Base.{
  ℕ, ◌+◌, ◌%◌, ◌≡◌, refl, Bool, true, false, ◌&&◌, ◌||◌, none, some, arith, Eq, ◌==◌, nat_eq,
  if◌then◌else◌, ◌∙◌, ap, sym, Option-cases, Bool-cases, inl, inr, u64_mod, eq_of_beq,
}
use atomr.Map.{Map, get, insert, merge_with, get-empty, get-insert, is_some}
use atomr.Ddata.CrdtMerge.{IsSemilattice}
use atomr.Ddata.Sets.{HashSet, extend, OrSet, tags_at, add, remove, contains, extend_tags, merge}
use atomr.Ddata.Sets.Laws.{has-extend, has_tag, has_tag-merge_with, SameTags, contains_iff}

same_truth : (a b : Bool) → (a ≡ true → b ≡ true) → (b ≡ true → a ≡ true) → a ≡ b
same_truth a b f g = ground arith

module _ {T : Type 0} ⦃e : Eq T⦄ where
  flip :
      (m n : Map T (HashSet ℕ)) (item : T) (tag : ℕ)
      → has_tag (merge_with extend_tags m n) item tag
        ≡ has_tag (merge_with extend_tags n m) item tag
  flip m n item tag =
      ground (arith, has_tag-merge_with m n item tag, has_tag-merge_with n m item tag)

  regroup :
      (m n o : Map T (HashSet ℕ)) (item : T) (tag : ℕ)
      → has_tag (merge_with extend_tags (merge_with extend_tags m n) o) item tag
        ≡ has_tag (merge_with extend_tags m (merge_with extend_tags n o)) item tag
  regroup m n o item tag = ground (
    arith,
    has_tag-merge_with m n item tag,
    has_tag-merge_with (merge_with extend_tags m n) o item tag,
    has_tag-merge_with n o item tag,
    has_tag-merge_with m (merge_with extend_tags n o) item tag,
  )

  -- The merge of observed-remove sets is commutative, associative and idempotent on the tags added
  -- and removed for every item, and on the counter.
  pub orset-IsSemilattice : IsSemilattice (SameTags {T = T}) merge
  unfolding merge
  orset-IsSemilattice = record {
    idem = λ a. record {
      adds = λ item tag. ground (arith, has_tag-merge_with a.adds a.adds item tag);
      removes = λ item tag. ground (arith, has_tag-merge_with a.removes a.removes item tag);
      counter = ground arith;
    };
    comm = λ a b. record {
      adds = λ item tag. flip a.adds b.adds item tag;
      removes = λ item tag. flip a.removes b.removes item tag;
      counter = ground arith;
    };
    assoc = λ a b c. record {
      adds = λ item tag. regroup a.adds b.adds c.adds item tag;
      removes = λ item tag. regroup a.removes b.removes c.removes item tag;
      counter = ground arith;
    };
  }

  has_tag-insert :
      (m : Map T (HashSet ℕ)) (x item : T) (tags : HashSet ℕ) (tag : ℕ)
      → has_tag (insert m x tags) item tag
        ≡ (if x == item then is_some (get tags tag) else has_tag m item tag)
  unfolding has_tag
  has_tag-insert m x item tags tag = rw (get-insert m x tags item) (ground arith)

  has_tag_at :
      (m : Map T (HashSet ℕ)) (x item : T) (tag : ℕ)
      → (x == item) ≡ true
      → has_tag m x tag ≡ has_tag m item tag
  has_tag_at m x item tag h = ap (λ y. has_tag m y tag) (eq_of_beq h)

  tag_of_tags_at :
      (m : Map T (HashSet ℕ)) (x : T) (tag : ℕ) → is_some (get (tags_at m x) tag) ≡ has_tag m x tag
  unfolding has_tag
  tag_of_tags_at m x tag = refl

  absent : (m : Map T (HashSet ℕ)) (x : T) (tag : ℕ) → get m x ≡ none → has_tag m x tag ≡ false
  unfolding has_tag
  absent m x tag h = rw h (ap is_some (get-empty {K = ℕ} {V = Unit {0}} tag))

  present :
      (m : Map T (HashSet ℕ)) (x : T) (tags : HashSet ℕ) (tag : ℕ)
      → get m x ≡ some tags
      → has_tag m x tag ≡ is_some (get tags tag)
  unfolding has_tag
  present m x tags tag h = rw h refl

  pub has_tag-remove :
      (s : OrSet T) (x item : T) (tag : ℕ)
      → has_tag (remove s x).removes item tag
        ≡ (has_tag s.removes item tag || ((x == item) && has_tag s.adds item tag))
  unfolding remove
  has_tag-remove s x item tag = elim (Option-cases (get s.adds x)) [
    | inl n ↦ rw (n, remove) (ground (arith, absent s.adds x tag n, has_tag_at s.adds x item tag))
    | inr (tags, h) ↦
        rw (h, remove)
          (ground (
            arith,
            has_tag-insert s.removes x item (extend (tags_at s.removes x) tags) tag,
            has-extend (tags_at s.removes x) tags tag,
            present s.adds x tags tag h,
            has_tag_at s.adds x item tag,
            tag_of_tags_at s.removes x tag,
            has_tag_at s.removes x item tag,
          ))
  ]

  pub adds-remove : (s : OrSet T) (x : T) → (remove s x).adds ≡ s.adds
  unfolding remove
  adds-remove s x = ground arith

  pub has_tag-add :
      (s : OrSet T) (x item : T) (tag : ℕ)
      → has_tag (add s x).adds item tag
        ≡ (((x == item) && ((s.counter + 1) % u64_mod == tag)) || has_tag s.adds item tag)
  unfolding add
  has_tag-add s x item tag = ground (
    arith,
    has_tag-insert s.adds x item (insert (tags_at s.adds x) ((s.counter + 1) % u64_mod) tt) tag,
    get-insert (tags_at s.adds x) ((s.counter + 1) % u64_mod) tt tag,
    tag_of_tags_at s.adds x tag,
    has_tag_at s.adds x item tag,
  )

  pub removes-add : (s : OrSet T) (x : T) → (add s x).removes ≡ s.removes
  unfolding add
  removes-add s x = refl

  -- Two sets in which the tags of an item agree show it alike.
  contains_of_tags :
      (a b : OrSet T) (x : T)
      → ((tag : ℕ) → has_tag a.adds x tag ≡ has_tag b.adds x tag)
      → ((tag : ℕ) → has_tag a.removes x tag ≡ has_tag b.removes x tag)
      → contains a x ≡ true
      → contains b x ≡ true
  contains_of_tags a b x f g h =
      let (tag, p, q) = (contains_iff a x).0 h in
      (contains_iff b x).1 (tag, sym (f tag) ∙ p, sym (g tag) ∙ q)

  pub same_shown :
      (a b : OrSet T) (x : T)
      → ((tag : ℕ) → has_tag a.adds x tag ≡ has_tag b.adds x tag)
      → ((tag : ℕ) → has_tag a.removes x tag ≡ has_tag b.removes x tag)
      → contains a x ≡ contains b x
  same_shown a b x f g =
      same_truth (contains a x) (contains b x) (contains_of_tags a b x f g)
        (contains_of_tags b a x (λ tag. sym (f tag)) (λ tag. sym (g tag)))

  hidden : (s : OrSet T) (x y : T) → (x == y) ≡ true → contains (remove s x) y ≡ true → ⊥
  hidden s x y h c =
      let (tag, p, q) = (contains_iff (remove s x) y).0 c in
      let r : (has_tag (remove s x).adds y tag ≡ has_tag s.adds y tag) =
        ap (λ m. has_tag m y tag) (adds-remove s x) in
      ground (arith, has_tag-remove s x y tag)

  -- A removal hides the item and leaves what is shown of every other as it was.
  pub contains-remove :
      (s : OrSet T) (x y : T) → contains (remove s x) y ≡ (if x == y then false else contains s y)
  contains-remove s x y = elim (Bool-cases (x == y)) [
    | inl h ↦ ground (arith, hidden s x y)
    | inr n ↦ rw n (
        same_shown (remove s x) s y (λ tag. ap (λ m. has_tag m y tag) (adds-remove s x))
          (λ tag. ground (arith, has_tag-remove s x y tag)))
  ]
