-- ===== src/Cluster/Daemon/Exchange.antt =====
-- Two daemons that exchange gossip: how one catches up with the other.
use mathlib.Core.List.{append-nil}
use atomr.Base.{
  ◌∙◌, List, ◌++◌, ◌==◌, beq_refl, if◌then◌else◌, ◌≡◌, refl, some, [], ◌∷◌, arith, Text,
}
use atomr.Core.Address.{Address, address_eq, to_string}
use atomr.Core.Address.Parse.{parse}
use atomr.Core.Address.Parse.RoundTrip.{IsReadable, parse-to_string}
use atomr.Keyed.{find}
use atomr.Keyed.Unique.{Distinct, find-upsert_all, find-upsert_all-or_else, or_else}
use atomr.Cluster.Member.{Member}
use atomr.Cluster.Membership.{MembershipState, address}
use atomr.Cluster.VectorClock.{VectorClock, VectorRelation, version_of, before, compare}
use atomr.Cluster.VectorClock.Order.{Leq, Relates, compare-Relates, version_of-merge}
use atomr.Cluster.Gossip.{GossipPdu, status, envelope, merge_request, decide}
use atomr.Cluster.Gossip.Merge.{members-add_all}
use atomr.Cluster.Daemon.{Daemon, Effect, publish, send, my_envelope, reply, handle_pdu}

pub my_status : Daemon → GossipPdu
my_status d = status (to_string d.self_addr) d.version

-- What a daemon makes of the PDUs sent to it among a list of effects, in order, and what it sends and
-- publishes in turn.
unfoldable pub receive : Daemon → List Effect → Daemon × List Effect
receive d [] = (d, [])
receive d (publish evt ∷ l) = receive d l
receive d (send target pdu ∷ l) =
    let skipped = receive d l in
    let (d', out) = handle_pdu d pdu in
    let (d'', more) = receive d' l in if target == d.self_addr then (d'', out ++ more) else skipped

receive_one :
    (d : Daemon) (pdu : GossipPdu) → receive d (send d.self_addr pdu ∷ []) ≡ handle_pdu d pdu
unfolding receive
receive_one d pdu = rw (beq_refl d.self_addr, append-nil (handle_pdu d pdu).1) refl

compare-before : (a b : VectorClock) → Leq a b → ¬ Leq b a → compare a b ≡ before
compare-before a b p q = go (compare a b) (compare-Relates a b)
  where
    go : (r : VectorRelation) → Relates r a b → r ≡ before
    go VectorRelation.same h = absurd (q h.1)
    go VectorRelation.before h = refl
    go VectorRelation.after h = absurd (h.0 p)
    go VectorRelation.concurrent h = absurd (h.0 p)

module _ (a b : Daemon) where
  abbrev request : GossipPdu
  request = merge_request (to_string a.self_addr) a.version

  asks :
      compare a.version b.version ≡ before
      → parse (to_string b.self_addr) ≡ some b.self_addr
      → handle_pdu a (my_status b) ≡ (a, send b.self_addr request ∷ [])
  unfolding handle_pdu my_status decide reply
  asks h q = rw (h, q, handle_pdu, decide, reply, my_status)

  answers :
      parse (to_string a.self_addr) ≡ some a.self_addr
      → handle_pdu b request ≡ (b, send a.self_addr (my_envelope b) ∷ [])
  unfolding handle_pdu reply
  answers p = rw (p, handle_pdu, reply)

  -- The daemon that is behind, after the exchange.
  abbrev caught_up : Daemon
  caught_up = (handle_pdu a (my_envelope b)).0

  told : receive a (send a.self_addr (my_envelope b) ∷ []) ≡ (caught_up, [])
  told = receive_one a (my_envelope b) ∙ unfold handle_pdu in refl

-- A daemon hears the status of a peer whose version is newer, and whatever either sends to the other is
-- delivered. In both addresses no separator stands in the part before it, and no two of the peer's
-- members have the same address. Then after the two messages the peer is as it was, nothing is left to deliver, the daemon's
-- version is that of the peer at every node, and it has the peer's member at every address, or its own
-- where the peer has none.
pub pull_catches_up :
    (a b : Daemon) (k : Text) (x : Address)
    → Leq a.version b.version
    → ¬ Leq b.version a.version
    → IsReadable a.self_addr
    → IsReadable b.self_addr
    → Distinct address b.state.members
    → let asked = handle_pdu a (my_status b) in
      let answered = receive b asked.1 in
      let end = receive asked.0 answered.1 in
      (answered.0 ≡ b)
      × (end.1 ≡ [])
      × (version_of end.0.version k ≡ version_of b.version k)
      × (find address end.0.state.members x
          ≡ or_else (find address b.state.members x) (find address a.state.members x))
pull_catches_up a b k x le lt p q d =
    rw
      (
        asks a b (compare-before a.version b.version le lt) (parse-to_string b.self_addr q),
        receive_one b (request a b),
        answers a b (parse-to_string a.self_addr p),
        told a b,
      )
      (
        refl,
        refl,
        unfold handle_pdu in omega (arith, version_of-merge a.version b.version k, le k),
        unfold handle_pdu in
            (rw (members-add_all a.state b.state.members)
              (find-upsert_all-or_else address a.state.members b.state.members x d)),
      )

-- After an envelope a daemon's version is at least its own and at least the envelope's, and a
-- member of the envelope with a distinct address has the status that the envelope gives it, whatever
-- status the daemon had for it.
pub envelope_overrides :
    (d : Daemon) (from : Text) (their : VectorClock) (s : MembershipState) (a : Address)
    (m : Member)
    → Distinct address s.members
    → find address s.members a ≡ some m
    → let d' = (handle_pdu d (envelope from their s)).0 in
      Leq d.version d'.version × Leq their d'.version × (find address d'.state.members a ≡ some m)
unfolding handle_pdu
envelope_overrides d from their s a m u f = (
  λ k. omega (arith, version_of-merge d.version their k),
  λ k. omega (arith, version_of-merge d.version their k),
  rw (members-add_all d.state s.members)
      (find-upsert_all address d.state.members s.members a m u f),
)
