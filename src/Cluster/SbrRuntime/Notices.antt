-- ===== src/Cluster/SbrRuntime/Notices.antt =====
-- The calls of the quorum observer alternate.
use atomr.Base.{
  ℕ, ◌≡◌, refl, Bool, true, false, List, [], ◌∷◌, ◌++◌, arith, ◌⊎◌, inl, inr, subst, ◌∙◌, some,
  unwrap_or,
}
use atomr.Cluster.Member.{Member}
use atomr.Cluster.Membership.{MembershipState}
use atomr.Cluster.Sbr.{DowningDecision}
use atomr.Cluster.SbrRuntime.{
  SbrRuntime, Notice, quorum_lost, quorum_regained, sides, decide, act, tick,
}

-- The notices from a state in which the quorum is lost, or not.
abbrev pub Alternates : Bool → List Notice → Type 0
Alternates lost [] = Unit
Alternates false (quorum_lost ∷ l) = Alternates true l
Alternates true (quorum_regained ∷ l) = Alternates false l
Alternates false (quorum_regained ∷ l) = ⊥
Alternates true (quorum_lost ∷ l) = ⊥

unfoldable pub run : SbrRuntime → List (MembershipState × ℕ) → List Notice
run rt [] = []
run rt ((s, now) ∷ l) = let (rt', _, notices) = tick rt s now in notices ++ run rt' l

-- What a tick with an observer announces: nothing, or the turn of the flag.
abbrev Turns : Bool → List Notice → Bool → Type 0
Turns b notices after =
    ((notices ≡ []) × (after ≡ b))
    ⊎ ((b ≡ false) × (notices ≡ quorum_lost ∷ []) × (after ≡ true))
    ⊎ ((b ≡ true) × (notices ≡ quorum_regained ∷ []) × (after ≡ false))

act-Turns :
    (rt : SbrRuntime) (s : MembershipState) (u : List Member) (d : DowningDecision)
    → rt.observer ≡ true
    → Turns rt.quorum_is_lost (act rt s u d).2 (act rt s u d).0.quorum_is_lost
unfolding act
act-Turns rt s u DowningDecision.stay o = inl (refl, refl)
act-Turns rt s u DowningDecision.down_unreachable o = inl (refl, refl)
act-Turns rt s u DowningDecision.down_all o = inl (refl, refl)
act-Turns rt s u DowningDecision.down_self o = ground arith

decide-Turns :
    (rt : SbrRuntime) (s : MembershipState) (now : ℕ) (p : List Member × List Member)
    → rt.observer ≡ true
    → Turns rt.quorum_is_lost (decide rt s now p).2 (decide rt s now p).0.quorum_is_lost
unfolding decide
decide-Turns rt s now (r, []) o = ground arith
decide-Turns rt s now (r, m ∷ ms) o =
    let seen = record rt { unstable_since = some (unwrap_or rt.unstable_since now) } in
    ground (arith, act-Turns seen s (m ∷ ms) (rt.strategy r (m ∷ ms)) o)

act-observer :
    (rt : SbrRuntime) (s : MembershipState) (u : List Member) (d : DowningDecision)
    → (act rt s u d).0.observer ≡ rt.observer
unfolding act
act-observer rt s u DowningDecision.stay = refl
act-observer rt s u DowningDecision.down_unreachable = refl
act-observer rt s u DowningDecision.down_all = refl
act-observer rt s u DowningDecision.down_self = ground arith

decide-observer :
    (rt : SbrRuntime) (s : MembershipState) (now : ℕ) (p : List Member × List Member)
    → (decide rt s now p).0.observer ≡ rt.observer
unfolding decide
decide-observer rt s now (r, []) = ground arith
decide-observer rt s now (r, m ∷ ms) =
    let seen = record rt { unstable_since = some (unwrap_or rt.unstable_since now) } in
    ground (arith, act-observer seen s (m ∷ ms) (rt.strategy r (m ∷ ms)))

Alternates-append :
    (b after : Bool) (notices l : List Notice)
    → Turns b notices after
    → Alternates after l
    → Alternates b (notices ++ l)
Alternates-append b after notices l (inl (e, f)) h = rw (e) (subst (λ x. Alternates x l) f h)
Alternates-append b after notices l (inr (inl (x, e, f))) h =
    rw (e, x) (subst (λ y. Alternates y l) f h)
Alternates-append b after notices l (inr (inr (x, e, f))) h =
    rw (e, x) (subst (λ y. Alternates y l) f h)

-- Over any ticks, the observer is told of a loss and of a regain in turn, and first of a loss if
-- the quorum was not lost before.
pub run-Alternates :
    (rt : SbrRuntime) (inputs : List (MembershipState × ℕ))
    → rt.observer ≡ true
    → Alternates rt.quorum_is_lost (run rt inputs)
unfolding run tick
run-Alternates rt [] o = tt
run-Alternates rt ((s, now) ∷ l) o =
    let p = sides s.reachability s.members in
    let r = decide rt s now p in
    Alternates-append rt.quorum_is_lost r.0.quorum_is_lost r.2 (run r.0 l)
      (decide-Turns rt s now p o) (run-Alternates r.0 l (decide-observer rt s now p ∙ o))
