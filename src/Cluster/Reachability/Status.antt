-- ===== src/Cluster/Reachability/Status.antt =====
-- The aggregated status of a subject, and the finality of `Terminated`.
use atomr.Base.{
  ◌↔◌, ◌≡◌, ◌≢◌, refl, Bool, true, false, ◌&&◌, ◌||◌, some, List, [], ◌∷◌, arith, ◌==◌, pair_eq,
  pair_beq_iff, if◌then◌else◌, beq_refl, Bool-cases, inl, inr, ap, ◌∙◌,
}
use atomr.Core.Address.{Address, address_eq}
use atomr.Map.{get, get-insert_ne, get-insert_same, lookup, IsUnique}
use atomr.Cluster.Reachability.{
  Reachability, ReachabilityStatus, reachable, unreachable, terminated, observe, mark_unreachable,
  mark_reachable, mark_terminated, scan, status, is_reachable, is_terminated,
}

abbrev Records : Type 0
Records = List ((Address × Address) × ReachabilityStatus)

-- What the observers' records say of a subject, one case to each aggregated status.
abbrev pub Judges : ReachabilityStatus → Reachability → Address → Type 0
Judges terminated r s = (o : Address) × (get r.records (o, s) ≡ some terminated)
Judges unreachable r s =
    (o : Address) × (get r.records (o, s) ≡ some unreachable)
    × ((p : Address) → get r.records (p, s) ≢ some terminated)
Judges reachable r s =
    (o : Address) (st : ReachabilityStatus) → get r.records (o, s) ≡ some st → st ≡ reachable

same_status : ReachabilityStatus → ReachabilityStatus → Bool
same_status reachable reachable = true
same_status unreachable unreachable = true
same_status terminated terminated = true
same_status _ _ = false

-- Some observer's record of the subject is `v`.
any_record : ReachabilityStatus → Records → Address → Bool
unfolding same_status
any_record v [] s = false
any_record v (((o, t), w) ∷ l) s = (t == s && same_status w v) || any_record v l s

scan-any_record :
    (l : Records) (s : Address) (flag : Bool)
    → scan l s flag ≡ (
        if any_record terminated l s
        then terminated
        else if flag || any_record unreachable l s
        then unreachable
        else reachable)
unfolding scan any_record
scan-any_record [] s flag = ground arith
scan-any_record (((o, t), terminated) ∷ l) s flag = ground (arith, scan-any_record l s flag)
scan-any_record (((o, t), unreachable) ∷ l) s flag =
    ground (arith, scan-any_record l s (if t == s then true else flag))
scan-any_record (((o, t), reachable) ∷ l) s flag = ground (arith, scan-any_record l s flag)

any_record_of_lookup :
    (v : ReachabilityStatus) (l : Records) (o s : Address)
    → lookup (o, s) l ≡ some v
    → any_record v l s ≡ true
unfolding lookup any_record
any_record_of_lookup v [] o s h = cc
any_record_of_lookup v (((p, t), w) ∷ l) o s h = elim (Bool-cases (p == o && t == s)) [
  | inl e ↦ ground (arith, same_status_refl v)
  | inr e ↦ ground (arith, any_record_of_lookup v l o s)
]
  where
    same_status_refl : (v : ReachabilityStatus) → same_status v v ≡ true
    same_status_refl reachable = refl
    same_status_refl unreachable = refl
    same_status_refl terminated = refl

lookup_of_any_record :
    (v : ReachabilityStatus) (l : Records) (s : Address)
    → IsUnique l
    → any_record v l s ≡ true
    → (o : Address) × (lookup (o, s) l ≡ some v)
unfolding lookup any_record
lookup_of_any_record v [] s u h = absurd (ground arith)
lookup_of_any_record v (((p, t), w) ∷ l) s u h = elim (Bool-cases (t == s && same_status w v)) [
  | inl e ↦ (p, ground (arith, beq_refl p, same_status_eq w v))
  | inr e ↦ deeper (lookup_of_any_record v l s u.1 (ground arith))
]
  where
    same_status_eq : (w v : ReachabilityStatus) → same_status w v ≡ true → w ≡ v
    same_status_eq reachable reachable h = refl
    same_status_eq unreachable unreachable h = refl
    same_status_eq terminated terminated h = refl
    same_status_eq _ _ h = absurd (ground arith)

    deeper :
        (o : Address) × (lookup (o, s) l ≡ some v)
        → (o : Address) × (lookup (o, s) (((p, t), w) ∷ l) ≡ some v)
    deeper (o, e) = (o, ground (arith, pair_beq_iff (p, t) (o, s)))

-- `status` is `Terminated` if some observer's record of the subject is, else `Unreachable` if some
-- record is, and `Reachable` only if every record of the subject says so.
pub status-Judges : (r : Reachability) (s : Address) → Judges (status r s) r s
unfolding status get
status-Judges r s = elim (Bool-cases (any_record terminated l s)) [
  | inl t ↦ rw (scan-any_record l s false, t) (lookup_of_any_record terminated l s u t)
  | inr nt ↦ elim (Bool-cases (any_record unreachable l s)) [
    | inl n ↦
        let (o, e) = lookup_of_any_record unreachable l s u n in
        rw (scan-any_record l s false, nt, n) (o, e, λ p. none_with terminated nt p)
    | inr nn ↦
        rw (scan-any_record l s false, nt, nn)
          (λ o st e.
            reachable_only st (λ x. none_with terminated nt o (e ∙ ap some x))
              (λ x. none_with unreachable nn o (e ∙ ap some x)))
  ]
]
  where
    l : Records
    l = r.records.entries

    u : IsUnique l
    u = r.records.unique

    none_with :
        (v : ReachabilityStatus)
        → any_record v l s ≡ false
        → (p : Address) → lookup (p, s) l ≢ some v
    none_with v h p e = cc (any_record_of_lookup v l p s e)

    reachable_only : (st : ReachabilityStatus) → st ≢ terminated → st ≢ unreachable → st ≡ reachable
    reachable_only reachable a b = refl
    reachable_only unreachable a b = absurd (b refl)
    reachable_only terminated a b = absurd (a refl)

-- A subject is reachable exactly if no observer's record says otherwise.
pub is_reachable_iff :
    (r : Reachability) (s : Address) → (is_reachable r s ≡ true) ↔ Judges reachable r s
unfolding is_reachable
is_reachable_iff r s = go (status r s) refl (status-Judges r s)
  where
    Result : Type 0
    Result = (is_reachable r s ≡ true) ↔ Judges reachable r s

    go : (st : ReachabilityStatus) → status r s ≡ st → Judges st r s → Result
    go reachable e j = (λ h. j, λ h. rw (e, is_reachable) refl)
    go unreachable e (o, j, n) =
        (λ h. absurd (cc (rw (e, is_reachable) at h)), λ h. absurd (cc (h o unreachable j)))
    go terminated e (o, j) =
        (λ h. absurd (cc (rw (e, is_reachable) at h)), λ h. absurd (cc (h o terminated j)))

-- One report of an observer about a subject.
pub data Report : Type 0 where
  says_reachable says_unreachable says_terminated : Address → Address → Report

apply : Reachability → Report → Reachability
apply r (says_reachable o s) = mark_reachable r o s
apply r (says_unreachable o s) = mark_unreachable r o s
apply r (says_terminated o s) = mark_terminated r o s

unfoldable pub run : Reachability → List Report → Reachability
unfolding apply
run r [] = r
run r (x ∷ xs) = run (apply r x) xs

terminated-observe :
    (r : Reachability) (p t : Address) (v : ReachabilityStatus) (o s : Address)
    → get r.records (o, s) ≡ some terminated
    → get (observe r p t v).records (o, s) ≡ some terminated
unfolding observe
terminated-observe r p t v o s h = elim (Bool-cases (is_terminated (get r.records (p, t)))) [
  | inl final ↦ rw final h
  | inr open_ ↦
      rw open_
        (get-insert_ne r.records (p, t) (o, s) v terminated h (λ e. cc (open_, ap is_terminated e)))
]

terminated-apply :
    (r : Reachability) (x : Report) (o s : Address)
    → get r.records (o, s) ≡ some terminated
    → get (apply r x).records (o, s) ≡ some terminated
unfolding apply mark_reachable mark_unreachable mark_terminated
terminated-apply r (says_reachable p t) o s h = terminated-observe r p t reachable o s h
terminated-apply r (says_unreachable p t) o s h = terminated-observe r p t unreachable o s h
terminated-apply r (says_terminated p t) o s h =
    get-insert_same r.records (p, t) (o, s) terminated h

terminated-run :
    (r : Reachability) (xs : List Report) (o s : Address)
    → get r.records (o, s) ≡ some terminated
    → get (run r xs).records (o, s) ≡ some terminated
unfolding run
terminated-run r [] o s h = h
terminated-run r (x ∷ xs) o s h = terminated-run (apply r x) xs o s (terminated-apply r x o s h)

-- Once an observer has recorded a subject as terminated, the subject's status stays `Terminated`
-- whatever any observer reports afterwards.
pub status-run_terminated :
    (r : Reachability) (xs : List Report) (o s : Address)
    → get r.records (o, s) ≡ some terminated
    → status (run r xs) s ≡ terminated
status-run_terminated r xs o s h = go (status (run r xs) s) (status-Judges (run r xs) s)
  where
    e : get (run r xs).records (o, s) ≡ some terminated
    e = terminated-run r xs o s h

    go : (st : ReachabilityStatus) → Judges st (run r xs) s → st ≡ terminated
    go terminated j = refl
    go unreachable j = absurd (j.2 o e)
    go reachable j = absurd (ground (arith, j o terminated e))
