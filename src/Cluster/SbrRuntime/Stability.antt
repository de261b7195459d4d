-- ===== src/Cluster/SbrRuntime/Stability.antt =====
-- When the runtime acts, over the ticks of a run.
use atomr.Base.{
  ℕ, ◌-◌, ◌≤◌, ◌≡◌, ◌≢◌, ◌↔◌, ◌⊎◌, inl, inr, refl, ◌∙◌, subst, true, Bool-cases, Option, none, some,
  List, [], ◌∷◌, arith, unwrap_or,
}
use atomr.Sorted.{In}
use atomr.Cluster.Member.{Member, MemberStatus}
use atomr.Cluster.Reachability.{Reachability, ReachabilityStatus, is_reachable}
use atomr.Cluster.Reachability.Status.{Judges, is_reachable_iff}
use atomr.Cluster.Membership.{MembershipState}
use atomr.Cluster.Sbr.{DowningDecision}
use atomr.Cluster.SbrRuntime.{
  SbrRuntime, no_action, counts, sides, act, decide, note_quorum_lost, note_quorum_regained, tick,
}

-- A member that is neither `Down` nor `Removed` and is recorded as unreachable or terminated by an
-- observer.
abbrev pub IsStray : Reachability → Member → Type 0
IsStray r m =
    (m.status ≢ MemberStatus.down)
    × (m.status ≢ MemberStatus.removed)
    × (¬ Judges ReachabilityStatus.reachable r m.address)

abbrev pub IsParted : MembershipState → Type 0
IsParted s = (m : Member) × In m s.members × IsStray s.reachability m

-- The ticks of a run, the latest first: what each saw, and the clock's reading.
abbrev pub History : Type 0
History = List (MembershipState × ℕ)

-- There was no tick yet, or the latest saw no partition.
abbrev pub IsCalm : History → Type 0
IsCalm [] = Unit
IsCalm ((s, now) ∷ l) = ¬ IsParted s

-- The latest tick saw a partition, as did all ticks since `t`, when the partition was seen first.
unfoldable pub Began : ℕ → History → Type 0
Began t [] = ⊥
Began t ((s, now) ∷ l) = IsParted s × (Began t l ⊎ ((t ≡ now) × IsCalm l))

unfoldable pub run : SbrRuntime → History → SbrRuntime
run rt [] = rt
run rt ((s, now) ∷ l) = (tick (run rt l) s now).0

counts_with :
    (m : Member) (st : MemberStatus)
    → (counts (record m { status = st }) ≡ true)
      ↔ ((st ≢ MemberStatus.down) × (st ≢ MemberStatus.removed))
counts_with m MemberStatus.down = (λ h. absurd (cc h), λ h. absurd (h.0 refl))
counts_with m MemberStatus.removed = (λ h. absurd (cc h), λ h. absurd (h.1 refl))
counts_with m _ = (λ h. (λ e. cc e, λ e. cc e), λ h. refl)

counts_iff :
    (m : Member)
    → (counts m ≡ true) ↔ ((m.status ≢ MemberStatus.down) × (m.status ≢ MemberStatus.removed))
counts_iff m = counts_with m m.status

-- The other side has a member exactly if some member is a stray.
abbrev Finds : Reachability → List Member → List Member → Type 0
Finds r ms [] = (m : Member) → In m ms → ¬ IsStray r m
Finds r ms (m ∷ l) = (x : Member) × In x ms × IsStray r x

Finds-cons :
    (r : Reachability) (m : Member) (ms u : List Member)
    → ¬ IsStray r m
    → Finds r ms u
    → Finds r (m ∷ ms) u
Finds-cons r m ms [] not_m h =
    λ x i. elim i [ inl e ↦ subst (λ y. ¬ IsStray r y) e not_m | inr i ↦ h x i ]
Finds-cons r m ms (y ∷ u) not_m (x, i, stray) = (x, inr i, stray)

sides-Finds : (r : Reachability) (ms : List Member) → Finds r ms (sides r ms).1
unfolding sides
sides-Finds r [] = λ m i. absurd i
sides-Finds r (m ∷ ms) =
    let rest = Finds-cons r m ms (sides r ms).1 in
    elim (Bool-cases (counts m)) [
      | inr n ↦ rw n (rest (λ (a, b, j). cc (n, (counts_iff m).1 (a, b))) (sides-Finds r ms))
      | inl c ↦ elim (Bool-cases (is_reachable r m.address)) [
        | inl y ↦
            rw (c, y)
              (rest (λ (a, b, j). j ((is_reachable_iff r m.address).0 y)) (sides-Finds r ms))
        | inr n ↦
            let (a, b) = (counts_iff m).0 c in
            rw (c, n) (m, inl refl, (a, b, λ j. cc (n, (is_reachable_iff r m.address).1 j)))
      ]
    ]

-- The field `unstable_since` after a tick.
abbrev since_after : Option ℕ → ℕ → List Member → Option ℕ
since_after old now [] = none
since_after old now (m ∷ l) = some (unwrap_or old now)

act_since :
    (rt : SbrRuntime) (s : MembershipState) (u : List Member) (d : DowningDecision)
    → ((act rt s u d).0.unstable_since ≡ rt.unstable_since)
      × ((act rt s u d).0.stable_after ≡ rt.stable_after)
unfolding act note_quorum_lost
act_since rt s u DowningDecision.stay = (refl, refl)
act_since rt s u DowningDecision.down_unreachable = (refl, refl)
act_since rt s u DowningDecision.down_all = (refl, refl)
act_since rt s u DowningDecision.down_self = ground arith

decide_since :
    (rt : SbrRuntime) (s : MembershipState) (now : ℕ) (p : List Member × List Member)
    → ((decide rt s now p).0.unstable_since ≡ since_after rt.unstable_since now p.1)
      × ((decide rt s now p).0.stable_after ≡ rt.stable_after)
unfolding decide note_quorum_regained
decide_since rt s now (r, []) = ground arith
decide_since rt s now (r, m ∷ ms) =
    let seen = record rt { unstable_since = some (unwrap_or rt.unstable_since now) } in
    ground (arith, act_since seen s (m ∷ ms) (rt.strategy r (m ∷ ms)))

-- The field holds when the partition began that the latest tick saw.
abbrev Tracks : Option ℕ → History → Type 0
Tracks none l = IsCalm l
Tracks (some t) l = Began t l

Tracks-since_after :
    (old : Option ℕ) (s : MembershipState) (now : ℕ) (l : History) (u : List Member)
    → Tracks old l
    → Finds s.reachability s.members u
    → Tracks (since_after old now u) ((s, now) ∷ l)
unfolding Began
Tracks-since_after old s now l [] h f = λ (m, i, x). f m i x
Tracks-since_after none s now l (m ∷ u) h f = (f, inr (refl, h))
Tracks-since_after (some t) s now l (m ∷ u) h f = (f, inl h)

run-Tracks :
    (rt : SbrRuntime) (l : History)
    → rt.unstable_since ≡ none
    → Tracks (run rt l).unstable_since l × ((run rt l).stable_after ≡ rt.stable_after)
unfolding run tick
run-Tracks rt [] e = (rw e tt, refl)
run-Tracks rt ((s, now) ∷ l) e =
    let (h, k) = run-Tracks rt l e in
    let p = sides s.reachability s.members in
    let (a, b) = decide_since (run rt l) s now p in
    (
      rw a (
          Tracks-since_after (run rt l).unstable_since s now l p.1 h
            (sides-Finds s.reachability s.members)),
      b ∙ k,
    )

decide_acts :
    (rt : SbrRuntime) (s : MembershipState) (now : ℕ) (l : History) (p : List Member × List Member)
    → Tracks rt.unstable_since l
    → Finds s.reachability s.members p.1
    → (decide rt s now p).1 ≢ no_action
    → (t : ℕ) × Began t ((s, now) ∷ l) × (rt.stable_after ≤ now - t)
unfolding decide
decide_acts rt s now l (r, []) h f n = absurd (n refl)
decide_acts rt s now l (r, m ∷ ms) h f n = (
  unwrap_or rt.unstable_since now,
  Tracks-since_after rt.unstable_since s now l (m ∷ ms) h f,
  ground arith,
)

-- From a runtime that sees no partition yet, after any ticks: a tick downs somebody, or leaves itself,
-- only if it sees a partition, which is to say that an observer has some member unreachable or
-- terminated that is neither `Down` nor `Removed`; and if every tick has seen one since some tick at
-- least `stable_after` ago, with none seen by the tick before that one.
pub tick_acts :
    (rt : SbrRuntime) (l : History) (s : MembershipState) (now : ℕ)
    → rt.unstable_since ≡ none
    → (tick (run rt l) s now).1 ≢ no_action
    → (t : ℕ) × Began t ((s, now) ∷ l) × (rt.stable_after ≤ now - t)
unfolding tick
tick_acts rt l s now e n =
    let (h, k) = run-Tracks rt l e in
    let (t, b, o) =
      decide_acts (run rt l) s now l (sides s.reachability s.members) h
        (sides-Finds s.reachability s.members) n in
    (t, b, omega (arith, k, o))
