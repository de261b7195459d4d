-- ===== src/Cluster/Sbr/Survivors.antt =====
-- Which sides of a partition survive, when both run the same strategy on what they see.
use atomr.Base.{
  ℕ, ◌+◌, ◌*◌, ◌<◌, leb_ℤ, leb_ℤ_refl, leb_ℤ_trans, leb_ℤ_total, leb_ℤ_antisymm, Bool-cases, All,
  Option, none, subst, ap, if◌then◌else◌, nat_beq, ◌&&◌, [], ◌∷◌, ◌≡◌, refl, Bool, true, false,
  some, List, arith, length, ◌⊎◌, inl, inr,
}
use atomr.Sorted.{In, All-In}
use atomr.Cluster.Member.{Member}
use atomr.Cluster.Sbr.{
  DowningDecision, down_unreachable, down_all, down_self, stay, up_count, keep_majority,
  static_quorum, oldest, keep_oldest, sides_oldest, lease_majority,
}

-- What the other side should decide.
abbrev pub mirror : DowningDecision → DowningDecision
mirror down_unreachable = down_self
mirror down_self = down_unreachable
mirror down_all = down_all
mirror stay = stay

-- Under `KeepMajority` the two sides of a partition decide alike: one side stays and the other
-- leaves, or both go down on a tie.
pub keep_majority-mirror : (r u : List Member) → keep_majority u r ≡ mirror (keep_majority r u)
unfolding keep_majority
keep_majority-mirror r u = ground arith

-- Under `StaticQuorum` no two sides survive together, if the quorum is more than half of the
-- members.
pub static_quorum_one_survivor :
    (q : ℕ) (r u : List Member)
    → length r + length u < 2 * q
    → static_quorum q r u ≡ down_unreachable
    → static_quorum q u r ≡ down_self
unfolding static_quorum
static_quorum_one_survivor q r u h e = ground arith

-- A member of the list below whose `up_number` no other's lies.
abbrev pub IsLowest : Member → List Member → Type 0
IsLowest m l = In m l × All (λ x. leb_ℤ m.up_number x.up_number ≡ true) l

abbrev Lowest : Option Member → List Member → Type 0
Lowest none l = l ≡ []
Lowest (some m) l = IsLowest m l

lower :
    (m x : Member) (l : List Member)
    → leb_ℤ m.up_number x.up_number ≡ true
    → All (λ y. leb_ℤ x.up_number y.up_number ≡ true) l
    → All (λ y. leb_ℤ m.up_number y.up_number ≡ true) l
lower m x [] h a = tt
lower m x (y ∷ l) h a = (leb_ℤ_trans m.up_number x.up_number y.up_number h a.0, lower m x l h a.1)

oldest-Lowest : (l : List Member) → Lowest (oldest l) l
unfolding oldest
oldest-Lowest [] = refl
oldest-Lowest (m ∷ l) = go (oldest l) refl (oldest-Lowest l)
  where
    go : (o : Option Member) → oldest l ≡ o → Lowest o l → Lowest (oldest (m ∷ l)) (m ∷ l)
    go none e h = rw (e, oldest) (inl refl, (leb_ℤ_refl m.up_number, rw h tt))
    go (some x) e (i, a) = elim (Bool-cases (leb_ℤ m.up_number x.up_number)) [
      | inl t ↦ rw (e, oldest, t) (inl refl, (leb_ℤ_refl m.up_number, lower m x l t a))
      | inr t ↦ rw (e, oldest, t) (inr i, (leb_ℤ_total m.up_number x.up_number t, a))
    ]

oldest-IsLowest :
    (l : List Member) (a : Member)
    → IsLowest a l
    → (x : Member) × (oldest l ≡ some x) × (x.up_number ≡ a.up_number)
oldest-IsLowest l a (i, low) = go (oldest l) refl (oldest-Lowest l)
  where
    go :
        (o : Option Member)
        → oldest l ≡ o
        → Lowest o l
        → (x : Member) × (oldest l ≡ some x) × (x.up_number ≡ a.up_number)
    go none e h = absurd (subst (λ k. In a k) h i)
    go (some x) e (j, least) = (
      x,
      e,
      leb_ℤ_antisymm x.up_number a.up_number
          (All-In (λ y. leb_ℤ x.up_number y.up_number ≡ true) a l least i)
          (All-In (λ y. leb_ℤ a.up_number y.up_number ≡ true) x l low j),
    )

-- What a side decides that does not leave.
abbrev pub keeps : (down_if_alone : Bool) → List Member → DowningDecision
keeps true (m ∷ []) = down_all
keeps alone l = down_unreachable

keep_oldest-numbers :
    (alone : Bool) (r u : List Member) (a b : Member)
    → IsLowest a r
    → IsLowest b u
    → keep_oldest alone r u ≡ (if leb_ℤ a.up_number b.up_number then keeps alone r else down_self)
unfolding keep_oldest
keep_oldest-numbers alone r u a b p q =
    let (x, ro, e) = oldest-IsLowest r a p in
    let (y, uo, f) = oldest-IsLowest u b q in
    rw (ro, uo, sides_oldest, e, f)
      (ap (λ d. if leb_ℤ a.up_number b.up_number then d else down_self) (alone_keeps alone r))
  where
    alone_keeps :
        (alone : Bool) (l : List Member)
        → (if nat_beq (length l) 1 && alone then down_all else down_unreachable) ≡ keeps alone l
    alone_keeps true [] = refl
    alone_keeps true (m ∷ []) = refl
    alone_keeps true (m ∷ n ∷ l) = ground arith
    alone_keeps false l = ground arith

-- `KeepOldest` on two sides that have members, where both see the same partition. The side with the
-- lower lowest `up_number` stays and the other one leaves; if the lowest numbers are equal both sides
-- stay. A side that stays downs the other side, or every member if it has one member and
-- `down_if_alone` is on.
pub keep_oldest_lem :
    (alone : Bool) (r u : List Member) (a b : Member)
    → IsLowest a r
    → IsLowest b u
    → ((a.up_number ≡ b.up_number)
        × (keep_oldest alone r u ≡ keeps alone r)
        × (keep_oldest alone u r ≡ keeps alone u))
      ⊎ ((leb_ℤ b.up_number a.up_number ≡ false)
          × (keep_oldest alone r u ≡ keeps alone r)
          × (keep_oldest alone u r ≡ down_self))
      ⊎ ((leb_ℤ a.up_number b.up_number ≡ false)
          × (keep_oldest alone r u ≡ down_self)
          × (keep_oldest alone u r ≡ keeps alone u))
keep_oldest_lem alone r u a b p q =
    rw (keep_oldest-numbers alone r u a b p q, keep_oldest-numbers alone u r b a q p)
      (elim (Bool-cases (leb_ℤ a.up_number b.up_number)) [
        | inr t ↦ inr (inr (t, rw t refl, rw (leb_ℤ_total a.up_number b.up_number t) refl))
        | inl t ↦ elim (Bool-cases (leb_ℤ b.up_number a.up_number)) [
          | inl v ↦ inl (leb_ℤ_antisymm a.up_number b.up_number t v, rw t refl, rw v refl)
          | inr v ↦ inr (inl (v, rw t refl, rw v refl))
        ]
      ])

-- Under `LeaseMajority` both sides survive only if both hold the lease and the `Up` members are
-- split evenly.
pub lease_majority_both :
    (k l : Bool) (r u : List Member)
    → lease_majority k r u ≡ down_unreachable
    → lease_majority l u r ≡ down_unreachable
    → (k ≡ true) × (l ≡ true) × (up_count r ≡ up_count u)
unfolding lease_majority
lease_majority_both k l r u p q = ground arith
