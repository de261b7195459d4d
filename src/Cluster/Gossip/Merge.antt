-- ===== src/Cluster/Gossip/Merge.antt =====
-- What a merged gossip holds at each address and at each pair of observer and subject.
use atomr.Base.{◌≡◌, refl, Option, none, some, List, [], ◌∷◌, ◌++◌, pair_eq, ◌∙◌, ap}
use atomr.Core.Address.{Address, address_eq}
use atomr.Keyed.{find}
use atomr.Keyed.Unique.{
  or_else, or_else-none, upsert_all, upsert_all-append, find-upsert_all-or_else,
}
use atomr.Map.{Map, get, lookup, merge_entries, get-merge_entries, get-empty, insert, merged}
use atomr.Cluster.Member.{Member}
use atomr.Cluster.Reachability.{Reachability, ReachabilityStatus}
use atomr.Cluster.Reachability
use atomr.Cluster.Membership.{MembershipState, address, add_or_update}
use atomr.Cluster.Membership
use atomr.Cluster.Membership.Addresses.{IsValid}
use atomr.Cluster.Gossip.{Gossip, add_all, insert_all, merge}

abbrev Records : Type 0
Records = List ((Address × Address) × ReachabilityStatus)

abbrev take_new : Option ReachabilityStatus → ReachabilityStatus → ReachabilityStatus
take_new o st = st

records-insert_all :
    (r : Reachability) (l : Records) → (insert_all r l).records ≡ merge_entries take_new r.records l
unfolding insert_all merge_entries
records-insert_all r [] = refl
records-insert_all r ((k, st) ∷ l) =
    records-insert_all (record { records = insert r.records k st }) l

insert_all-append :
    (r : Reachability) (l m : Records) → insert_all r (l ++ m) ≡ insert_all (insert_all r l) m
unfolding insert_all
insert_all-append r [] m = refl
insert_all-append r ((k, st) ∷ l) m =
    insert_all-append (record { records = insert r.records k st }) l m

get-insert_all :
    (r : Reachability) (m : Map (Address × Address) ReachabilityStatus) (k : Address × Address)
    → get (insert_all r m.entries).records k ≡ or_else (get m k) (get r.records k)
get-insert_all r m k = rw (records-insert_all r m.entries) (
    get-merge_entries take_new r.records m.entries k m.unique
    ∙ swap (lookup k m.entries) (get r.records k)
    ∙ unfold get in refl)
  where
    swap : (p q : Option ReachabilityStatus) → merged take_new q p ≡ or_else p q
    swap none q = refl
    swap (some st) q = refl

pub members-add_all :
    (s : MembershipState) (ms : List Member)
    → (add_all s ms).members ≡ upsert_all address s.members ms
unfolding add_all add_or_update
members-add_all s [] = refl
members-add_all s (m ∷ ms) = members-add_all (add_or_update s m) ms

reachability-add_all :
    (s : MembershipState) (ms : List Member) → (add_all s ms).reachability ≡ s.reachability
unfolding add_all add_or_update
reachability-add_all s [] = refl
reachability-add_all s (m ∷ ms) = reachability-add_all (add_or_update s m) ms

get-new : (k : Address × Address) → get Membership.new.reachability.records k ≡ none
unfolding Membership.new Reachability.new
get-new k = get-empty k

find-new : (k : Address) → find address Membership.new.members k ≡ none
unfolding Membership.new find
find-new k = refl

-- Which reachability record and which member a merge keeps: where both gossips have one for the
-- same pair, or the same address, that of the second stands, whatever the first one's status is.
pub merge_lem :
    (a b : Gossip) (o s : Address)
    → IsValid a.state
    → IsValid b.state
    → (get (merge a b).state.reachability.records (o, s)
        ≡ or_else
            (get b.state.reachability.records (o, s))
            (get a.state.reachability.records (o, s)))
      × (find address (merge a b).state.members s
          ≡ or_else (find address b.state.members s) (find address a.state.members s))
unfolding merge
merge_lem a b o s v w = (
  rw
      (insert_all-append (add_all Membership.new (a.state.members ++ b.state.members)).reachability
        a.state.reachability.records.entries b.state.reachability.records.entries)
      (get-insert_all _ b.state.reachability.records (o, s)
        ∙ ap (or_else (get b.state.reachability.records (o, s))) (
            get-insert_all _ a.state.reachability.records (o, s)
            ∙ rw (reachability-add_all Membership.new (a.state.members ++ b.state.members), get-new)
                (or_else-none _))),
  rw (members-add_all Membership.new (a.state.members ++ b.state.members), upsert_all-append)
      (find-upsert_all-or_else address _ b.state.members s w.distinct
        ∙ ap (or_else (find address b.state.members s)) (
            find-upsert_all-or_else address _ a.state.members s v.distinct
            ∙ rw find-new (or_else-none _))),
)
