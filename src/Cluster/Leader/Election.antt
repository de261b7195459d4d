-- ===== src/Cluster/Leader/Election.antt =====
-- Who is elected, and that two nodes with the same eligible members elect alike.
use atomr.Base.{
  ◌↔◌, ◌⊎◌, arith, ◌≡◌, refl, Bool, true, Option, none, some, List, [], ◌∷◌, text_leb,
  text_leb_antisymm, inl, inr, ap, sym, ◌∙◌, subst, Bool-cases,
}
use mathlib.Core.Option
use atomr.Core.Address.{Address, to_string}
use atomr.Keyed.{retain}
use atomr.Sorted.{In, All-In, first, sort_by_key, Chooses, first-sort_by_key}
use atomr.Cluster.Member.{Member, MemberStatus}
use atomr.Cluster.Reachability.{Reachability, ReachabilityStatus}
use atomr.Cluster.Reachability.Status.{Judges, is_reachable_iff}
use atomr.Cluster.Membership.{MembershipState}
use atomr.Cluster.Leader.{can_lead, eligible, display, elect_leader}

In-retain :
    (p : Member → Bool) (l : List Member) (m : Member) → In m (retain p l) → In m l × (p m ≡ true)
unfolding retain
In-retain p [] m h = elim h [ ]
In-retain p (x ∷ l) m h = elim (Bool-cases (p x)) [
  | inl y ↦ kept (In-retain p l m) y (rw (y, retain) at h)
  | inr n ↦ dropped (In-retain p l m) (rw (n, retain) at h)
]
  where
    Rest : Type 0
    Rest = In m (retain p l) → In m l × (p m ≡ true)

    kept : Rest → p x ≡ true → In m (x ∷ retain p l) → In m (x ∷ l) × (p m ≡ true)
    kept ih y (inl e) = (inl e, ap p (sym e) ∙ y)
    kept ih y (inr t) = let (a, b) = ih t in (inr a, b)

    dropped : Rest → In m (retain p l) → In m (x ∷ l) × (p m ≡ true)
    dropped ih t = let (a, b) = ih t in (inr a, b)

retain-In :
    (p : Member → Bool) (l : List Member) (m : Member) → In m l → p m ≡ true → In m (retain p l)
unfolding retain
retain-In p [] m h e = elim h [ ]
retain-In p (x ∷ l) m (inl h) e = rw (ap p h ∙ e, retain) (inl h)
retain-In p (x ∷ l) m (inr h) e = elim (Bool-cases (p x)) [
  | inl y ↦ rw (y, retain) (inr (retain-In p l m h e))
  | inr n ↦ rw (n, retain) (retain-In p l m h e)
]

-- A member that may lead: it is `Up` or `Leaving`, and no observer has it unreachable or terminated.
abbrev pub MayLead : Reachability → Member → Type 0
MayLead r m =
    ((m.status ≡ MemberStatus.up) ⊎ (m.status ≡ MemberStatus.leaving))
    × Judges ReachabilityStatus.reachable r m.address

can_lead_iff :
    (st : MemberStatus)
    → (can_lead st ≡ true) ↔ ((st ≡ MemberStatus.up) ⊎ (st ≡ MemberStatus.leaving))
can_lead_iff MemberStatus.up = (λ h. inl refl, λ h. refl)
can_lead_iff MemberStatus.leaving = (λ h. inr refl, λ h. refl)
can_lead_iff _ = (λ h. absurd (cc h), λ h. absurd (ground arith))

eligible_iff : (r : Reachability) (m : Member) → (eligible r m ≡ true) ↔ MayLead r m
eligible_iff r m = (
  λ h. ((can_lead_iff m.status).0 (ground arith), (is_reachable_iff r m.address).0 (ground arith)),
  λ (c, j). ground (arith, (can_lead_iff m.status).1 c, (is_reachable_iff r m.address).1 j),
)

-- An address that a leader may have: that of a member that may lead, below whose display form lies
-- that of no other such member.
pub record Wins (s : MembershipState) (a : Address) : Type 0 where
  pub member : Member
  pub listed : In member s.members
  pub may : MayLead s.reachability member
  pub at : member.address ≡ a
  pub least :
      (m : Member)
      → In m s.members
      → MayLead s.reachability m
      → text_leb (to_string a) (to_string m.address) ≡ true

abbrev pub Elects : Option Address → MembershipState → Type 0
Elects none s = (m : Member) → In m s.members → ¬ MayLead s.reachability m
Elects (some a) s = Wins s a

-- `elect_leader` finds no leader exactly if no member that is `Up` or `Leaving` is reachable, which is
-- to say that no observer has it unreachable or terminated; else the leader is the address of such a
-- member, and no such member's address is displayed below it.
pub elect_leader-Elects : (s : MembershipState) → Elects (elect_leader s) s
unfolding elect_leader
elect_leader-Elects s = go (first (sort_by_key display chosen)) (first-sort_by_key display chosen)
  where
    p : Member → Bool
    p = eligible s.reachability

    chosen : List Member
    chosen = retain p s.members

    go :
        (o : Option Member)
        → Chooses display o chosen
        → Elects (Option.map (λ (m : Member). m.address) o) s
    go none e = λ m h may.
        subst (λ l. In m l) e (retain-In p s.members m h ((eligible_iff s.reachability m).1 may))
    go (some x) (h, a) =
        let (i, y) = In-retain p s.members x h in
        record {
          member = x;
          listed = i;
          may = (eligible_iff s.reachability x).0 y;
          at = refl;
          least = λ m j z.
              All-In (λ y. text_leb (display x) (display y) ≡ true) m chosen a
                (retain-In p s.members m j ((eligible_iff s.reachability m).1 z));
        }

-- Every member of one state that may lead is listed in the other, and may lead there.
abbrev pub Covers : MembershipState → MembershipState → Type 0
Covers s t =
    (m : Member)
    → In m s.members
    → MayLead s.reachability m
    → In m t.members × MayLead t.reachability m

-- Two nodes that see the same members that may lead, in whatever order, elect leaders that are displayed
-- alike: neither elects one where the other elects none.
pub elect_leader-agree :
    (s t : MembershipState)
    → Covers s t
    → Covers t s
    → Option.map to_string (elect_leader s) ≡ Option.map to_string (elect_leader t)
elect_leader-agree s t c d =
    go (elect_leader s) (elect_leader t) (elect_leader-Elects s) (elect_leader-Elects t)
  where
    go :
        (o p : Option Address)
        → Elects o s
        → Elects p t
        → Option.map to_string o ≡ Option.map to_string p
    go none none e f = refl
    go none (some b) e w = let (i, y) = d w.member w.listed w.may in absurd (e w.member i y)
    go (some a) none w f = let (i, y) = c w.member w.listed w.may in absurd (f w.member i y)
    go (some a) (some b) w v =
        let (i, y) = c w.member w.listed w.may in
        let (j, z) = d v.member v.listed v.may in
        ap some (
          text_leb_antisymm (to_string a) (to_string b)
            (ap (λ x. text_leb (to_string a) (to_string x)) (sym v.at) ∙ w.least v.member j z)
            (ap (λ x. text_leb (to_string b) (to_string x)) (sym w.at) ∙ v.least w.member i y))
