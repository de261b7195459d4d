-- ===== src/Ddata/GCounter/Deltas.antt =====
-- Delta propagation: what a peer makes of the increments since the last delta.
use atomr.Base.{
  ℕ, ◌+◌, ◌%◌, ◌≡◌, Option, none, some, List, [], ◌∷◌, arith, unwrap_or, Text, text_eq, u64_mod,
  ◌==◌, sym, ◌∙◌, ap, Bool-cases, inl, inr, eq_of_beq,
}
use atomr.Map.{Map, get, get-merge_with, get-insert, merged, count, empty}
use atomr.Ddata.GCounter.{GCounter, increment, add_at, take_delta, merge_delta, add_to, is_empty}
use atomr.Ddata.GCounter.Laws.{Same}

unfoldable pub run : GCounter → List (Text × ℕ) → GCounter
run g [] = g
run g ((node, delta) ∷ l) = run (increment g node delta) l

-- Every count is that of `base` with the pending delta applied.
abbrev Pends : Map Text ℕ → GCounter → Type 0
Pends base g =
    (k : Text) → count g.state k ≡ unwrap_or (merged add_to (get base k) (get g.pending_delta k)) 0

pend_add :
    (b p : Option ℕ) (c d : ℕ)
    → c ≡ unwrap_or (merged add_to b p) 0
    → (c + d) % u64_mod ≡ (unwrap_or b 0 + (unwrap_or p 0 + d) % u64_mod) % u64_mod
pend_add none none c d h = omega arith
pend_add (some x) none c d h = omega arith
pend_add none (some y) c d h = omega arith
pend_add (some x) (some y) c d h = omega arith

increment-Pends :
    (base : Map Text ℕ) (g : GCounter) (node : Text) (delta : ℕ)
    → Pends base g
    → Pends base (increment g node delta)
unfolding increment add_at
increment-Pends base g node delta h k =
    rw (get-insert, get-insert)
      (elim (Bool-cases (node == k)) [
        | inl y ↦ rw y (at_node node k (eq_of_beq y))
        | inr n ↦ rw n (h k)
      ])
  where
    at_node :
        (node k : Text)
        → node ≡ k
        → (count g.state node + delta) % u64_mod
          ≡ (unwrap_or (get base k) 0 + (count g.pending_delta node + delta) % u64_mod) % u64_mod
    at_node node k e =
        rw (← e)
          (pend_add (get base node) (get g.pending_delta node) (count g.state node) delta (h node))

run-Pends :
    (base : Map Text ℕ) (g : GCounter) (l : List (Text × ℕ)) → Pends base g → Pends base (run g l)
unfolding run
run-Pends base g [] h = h
run-Pends base g ((node, delta) ∷ l) h =
    run-Pends base (increment g node delta) l (increment-Pends base g node delta h)

abbrev AddParts : (b c : Option ℕ) (p : Option ℕ) → Type 0
AddParts b c p =
    unwrap_or b 0 ≡ unwrap_or c 0
    → unwrap_or (merged add_to b p) 0 ≡ unwrap_or (merged add_to c p) 0

same_parts : (b c p : Option ℕ) → AddParts b c p
same_parts b c none h = h
same_parts b c (some x) h = ap (λ n. (n + x) % u64_mod) h

take_delta-eq-some :
    (t : GCounter) (d : Map Text ℕ)
    → (take_delta t).1 ≡ some d
    → (t.pending_delta ≡ d)
      × ((take_delta t).0.state ≡ t.state)
      × ((take_delta (take_delta t).0).1 ≡ none)
unfolding take_delta empty
take_delta-eq-some t d h = elim (Bool-cases (is_empty t.pending_delta.entries)) [
  | inl y ↦ absurd (clash (rw y at h))
  | inr n ↦ (ap (λ o. unwrap_or o t.pending_delta) (rw n at h), rw n, rw n)
]
  where
    clash : ◌≡◌ {A = Option (Map Text ℕ)} none (some d) → ⊥
    clash e = cc

-- A peer that showed the counts of a counter with nothing pending, and merges the delta that the
-- counter takes after any increments, shows the counts that the counter has; and the delta is taken
-- once.
pub merge_delta-take_delta :
    (peer g : GCounter) (l : List (Text × ℕ)) (delta : Map Text ℕ)
    → Same peer g
    → ((k : Text) → get g.pending_delta k ≡ none)
    → (take_delta (run g l)).1 ≡ some delta
    → Same (merge_delta peer delta) (take_delta (run g l)).0
      × ((take_delta (take_delta (run g l)).0).1 ≡ none)
unfolding merge_delta
merge_delta-take_delta peer g l delta same clean taken =
    let (e, state, once) = take_delta-eq-some (run g l) delta taken in
    (
      λ k.
          rw (get-merge_with add_to peer.state delta k, state)
            (same_parts (get peer.state k) (get g.state k) (get delta k) (same k)
              ∙ ap (λ (m : Map Text ℕ). unwrap_or (merged add_to (get g.state k) (get m k)) 0)
                  (sym e)
              ∙ sym (run-Pends g.state g l (λ j. rw (clean j)) k)),
      once,
    )
