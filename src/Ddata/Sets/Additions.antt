-- ===== src/Ddata/Sets/Additions.antt =====
-- The observed-remove set of sets.rs when items are added: the tags are the replica's own counter.
use atomr.Base.{
  ℕ, ◌+◌, ◌<◌, ◌≤◌, ◌≡◌, true, false, ◌||◌, arith, Eq, ◌==◌, nat_eq, if◌then◌else◌, ◌∙◌, ap, sym,
  Bool-cases, inl, inr, u64_mod, beq_refl,
}
use atomr.Map.{get-empty}
use atomr.Ddata.Sets.{HashSet, OrSet, new, add, remove, contains, merge}
use atomr.Ddata.Sets.Laws.{has_tag, has_tag-merge_with, contains_iff}
use atomr.Ddata.Sets.OrSetLaws.{has_tag-add, has_tag-remove, adds-remove, removes-add, same_shown}

-- No tag exceeds the counter.
IsBounded : {T : Type 0} ⦃e : Eq T⦄ → OrSet T → Type 0
IsBounded {T} s =
    (item : T) (tag : ℕ)
    → (has_tag s.adds item tag || has_tag s.removes item tag) ≡ true
    → tag ≤ s.counter

new-IsBounded : (T : Type 0) ⦃e : Eq T⦄ → IsBounded (new {T = T})
unfolding IsBounded new has_tag
new-IsBounded T item tag h =
    absurd
      (ground (arith, get-empty {K = T} {V = HashSet ℕ} item, get-empty {K = ℕ} {V = Unit {0}} tag))

module _ {T : Type 0} ⦃e : Eq T⦄ where
  -- The sets that replicas come to by their own additions and removals and by merges, while no
  -- counter wraps.
  pub data Reached : OrSet T → Type 0 where
    initial : Reached new
    added : (s : OrSet T) (x : T) → Reached s → s.counter + 1 < u64_mod → Reached (add s x)
    removed : (s : OrSet T) (x : T) → Reached s → Reached (remove s x)
    met : (a b : OrSet T) → Reached a → Reached b → Reached (merge a b)

  add-IsBounded :
      (s : OrSet T) (x : T) → IsBounded s → s.counter + 1 < u64_mod → IsBounded (add s x)
  unfolding IsBounded add
  add-IsBounded s x v w item tag h =
      ground (arith, v item tag, has_tag-add s x item tag, removes-add s x)

  counter-remove : (s : OrSet T) (x : T) → s.counter ≡ (remove s x).counter
  unfolding remove
  counter-remove s x = ground arith

  remove-IsBounded : (s : OrSet T) (x : T) → IsBounded s → IsBounded (remove s x)
  unfolding IsBounded
  remove-IsBounded s x v item tag h =
      let q : (has_tag (remove s x).adds item tag ≡ has_tag s.adds item tag) =
        ap (λ m. has_tag m item tag) (adds-remove s x) in
      rw (sym (counter-remove s x)) (ground (arith, v item tag, has_tag-remove s x item tag))

  merge-IsBounded : (a b : OrSet T) → IsBounded a → IsBounded b → IsBounded (merge a b)
  unfolding IsBounded merge
  merge-IsBounded a b v w item tag h = ground (
    arith,
    v item tag,
    w item tag,
    has_tag-merge_with a.adds b.adds item tag,
    has_tag-merge_with a.removes b.removes item tag,
  )

  Reached-IsBounded : (s : OrSet T) → Reached s → IsBounded s
  Reached-IsBounded _ initial = new-IsBounded T
  Reached-IsBounded _ (added s x r w) = add-IsBounded s x (Reached-IsBounded s r) w
  Reached-IsBounded _ (removed s x r) = remove-IsBounded s x (Reached-IsBounded s r)
  Reached-IsBounded _ (met a b r q) =
      merge-IsBounded a b (Reached-IsBounded a r) (Reached-IsBounded b q)

  fresh : (s : OrSet T) (y : T) → IsBounded s → has_tag s.removes y (s.counter + 1) ≡ false
  unfolding IsBounded
  fresh s y v = ground (arith, v y (s.counter + 1))

  -- In a set that replicas come to, an addition shows the item, whatever was removed before, and
  -- leaves what is shown of every other as it was, if the counter does not wrap.
  pub contains-add :
      (s : OrSet T) (x y : T)
      → Reached s
      → s.counter + 1 < u64_mod
      → contains (add s x) y ≡ (if x == y then true else contains s y)
  contains-add s x y r w = elim (Bool-cases (x == y)) [
    | inl h ↦ rw h (
        (contains_iff (add s x) y).1 (
          s.counter + 1,
          ground (arith, has_tag-add s x y (s.counter + 1)),
          ap (λ m. has_tag m y (s.counter + 1)) (removes-add s x)
              ∙ fresh s y (Reached-IsBounded s r),
        ))
    | inr n ↦ rw n (
        same_shown (add s x) s y (λ tag. ground (arith, has_tag-add s x y tag))
          (λ tag. ap (λ m. has_tag m y tag) (removes-add s x)))
  ]

  gone : (s : OrSet T) (x : T) → contains (merge (remove (add s x) x) (add s x)) x ≡ true → ⊥
  unfolding merge
  gone s x h =
      let a = add s x in
      let (tag, p, q) = (contains_iff (merge (remove a x) a) x).0 h in
      let r : (has_tag (remove a x).adds x tag ≡ has_tag a.adds x tag) =
        ap (λ m. has_tag m x tag) (adds-remove a x) in
      ground (
        arith,
        beq_refl x,
        has_tag-merge_with (remove a x).adds a.adds x tag,
        has_tag-merge_with (remove a x).removes a.removes x tag,
        has_tag-remove a x x tag,
      )

  -- Two replicas in the same state add the same item, and one removes it again, which is meant for
  -- its own addition alone. The additions carry the same tag, so the merge does not show the item.
  pub lost_add : (s : OrSet T) (x : T) → contains (merge (remove (add s x) x) (add s x)) x ≡ false
  lost_add s x = ground (arith, gone s x)
