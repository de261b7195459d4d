-- ===== src/Ddata/Sets.antt =====
-- crates/atomr-distributed-data/src/sets.rs: the grow-only and the observed-remove set. A `HashSet`
-- is a map to the one-point type.
pub mod Laws
pub mod OrSetLaws
pub mod Additions
use atomr.Base.{
  ℕ, ◌+◌, ◌%◌, Bool, true, false, not, Option, none, some, List, [], ◌∷◌, Eq, nat_eq, max,
  if◌then◌else◌, u64_mod, length, unwrap_or,
}
use atomr.Map.{Map, get, empty, insert, merge_with, any, is_some, keys}

abbrev pub HashSet {ℓ} : (T : Type ℓ) ⦃e : Eq T⦄ → Type ℓ
HashSet T = Map T (Unit {0})

-- `a.extend(b)`
unfoldable pub extend {ℓ} : {T : Type ℓ} ⦃e : Eq T⦄ → HashSet T → HashSet T → HashSet T
extend a b = merge_with (λ _ u. u) a b

pub record GSet (T : Type 0) ⦃e : Eq T⦄ : Type 0 where
  pub items : HashSet T

pub record OrSet (T : Type 0) ⦃e : Eq T⦄ : Type 0 where
  pub adds : Map T (HashSet ℕ)
  pub removes : Map T (HashSet ℕ)
  pub counter : ℕ

-- `a.difference(r).next().is_some()`, and `!a.is_empty()` where there is no `r`.
unfoldable pub survives : HashSet ℕ → Option (HashSet ℕ) → Bool
survives a (some r) = any (λ tag _. not (is_some (get r tag))) a
survives a none = any (λ tag _. true) a

abbrev pub extend_tags : Option (HashSet ℕ) → HashSet ℕ → HashSet ℕ
extend_tags slot v = extend (unwrap_or slot empty) v

module _ {T : Type 0} ⦃e : Eq T⦄ where
  unfoldable pub add_item : GSet T → T → GSet T
  add_item s item = record { items = insert s.items item tt }

  unfoldable pub has_item : GSet T → T → Bool
  has_item s item = is_some (get s.items item)

  unfoldable pub merge_gset : GSet T → GSet T → GSet T
  unfolding extend
  merge_gset s other = record { items = extend s.items other.items }

  unfoldable pub new : OrSet T
  new = record { adds = empty; removes = empty; counter = 0 }

  -- `m.entry(item).or_default()`
  abbrev pub tags_at : Map T (HashSet ℕ) → T → HashSet ℕ
  tags_at m item = unwrap_or (get m item) empty

  unfoldable pub add : OrSet T → T → OrSet T
  add s item =
      let counter = (s.counter + 1) % u64_mod in
      record s {
        adds = insert s.adds item (insert (tags_at s.adds item) counter tt);
        counter = counter;
      }

  unfoldable pub remove : OrSet T → T → OrSet T
  unfolding extend
  remove s item = elim (get s.adds item) [
    | none ↦ s
    | some tags ↦ record s {
      removes = insert s.removes item (extend (tags_at s.removes item) tags);
    }
  ]

  unfoldable pub contains : OrSet T → T → Bool
  unfolding survives
  contains s item = elim (get s.adds item) [
    | none ↦ false
    | some a ↦ survives a (get s.removes item)
  ]

  -- The items that `iter` yields.
  kept : OrSet T → List T → List T
  unfolding contains
  kept s [] = []
  kept s (k ∷ ks) = let rest = kept s ks in if contains s k then k ∷ rest else rest

  unfoldable pub iter : OrSet T → List T
  unfolding kept
  iter s = kept s (keys s.adds)

  unfoldable pub len : OrSet T → ℕ
  unfolding iter
  len s = length (iter s)

  unfoldable pub merge : OrSet T → OrSet T → OrSet T
  unfolding extend
  merge s other = record {
    adds = merge_with extend_tags s.adds other.adds;
    removes = merge_with extend_tags s.removes other.removes;
    counter = max s.counter other.counter;
  }
