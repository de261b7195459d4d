-- ===== src/Tools/Quiescence.antt =====
-- crates/atomr-cluster-tools/src/kill_switch.rs: halting the guarded parties and collecting their acks.
-- Awaiting is two steps: `start_quiescence` up to the wait for the peers, and `report` after it; what
-- comes in between is steps of its own.
pub mod Acks
pub mod Report
use atomr.Base.{
  ℕ, suc, ◌+◌, Bool, false, Option, none, some, List, [], ◌∷◌, ◌++◌, length, ltb, nat_eq,
  if◌then◌else◌, Text, text_eq, unwrap_or,
}
use atomr.Map
use atomr.Map.{Map}
use atomr.Tools.KillSwitch.{HaltReason, manual, Guarded, ClusterKillSwitch, epoch, engage_epoch}

pub record QuiescenceReport : Type 0 where
  pub acked : ℕ
  pub total : ℕ
  pub timed_out : Bool
  pub remote_acked : ℕ
  pub remote_total : ℕ

pub data HaltPdu : Type 0 where
  halt : (sender : Text) (epoch : ℕ) (reason : HaltReason) → HaltPdu
  ack : (sender : Text) (epoch : ℕ) → HaltPdu

unfoldable pub register_guarded : ClusterKillSwitch → (party : ℕ) → (rx : ℕ) → ClusterKillSwitch
register_guarded s party rx = record s {
  guarded = s.guarded ++ record { party = party; ack_rx = some rx } ∷ [];
}

-- `ack_rx.lock().take()` of every party: the receivers, in order.
unfoldable pub receivers : List Guarded → List ℕ
receivers [] = []
receivers (g ∷ l) = elim g.ack_rx [ some rx ↦ rx ∷ receivers l | none ↦ receivers l ]

unfoldable pub taken : List Guarded → List Guarded
taken [] = []
taken (g ∷ l) = record g { ack_rx = none } ∷ taken l

unfoldable pub count_acks : (ℕ → Bool) → List ℕ → ℕ
count_acks in_time [] = 0
count_acks in_time (rx ∷ l) =
    let rest = count_acks in_time l in if in_time rx then suc rest else rest

-- How many acked, of how many, and the switch after. `in_time` says which receivers get their ack
-- before the deadline.
unfoldable pub collect_local : (ℕ → Bool) → ClusterKillSwitch → (ℕ × ℕ) × ClusterKillSwitch
collect_local in_time s = (
  (count_acks in_time (receivers s.guarded), length (receivers s.guarded)),
  record s { guarded = taken s.guarded },
)

unfoldable pub has_acked : Option (Map Text (Unit {0})) → Text → Bool
has_acked none p = false
has_acked (some set) p = Map.is_some (Map.get set p)

unfoldable pub count_peers : Option (Map Text (Unit {0})) → List Text → ℕ
count_peers acks [] = 0
count_peers acks (p ∷ l) =
    let rest = count_peers acks l in if has_acked acks p then suc rest else rest

unfoldable pub remote_ack_count : ClusterKillSwitch → ℕ → List Text → ℕ
remote_ack_count s at peers = count_peers (Map.get s.remote_acks at) peers

unfoldable pub halts : (node : Text) → ℕ → HaltReason → List Text → List (Text × HaltPdu)
halts node at reason [] = []
halts node at reason (p ∷ l) = (p, halt node at reason) ∷ halts node at reason l

-- The peers that are waited for, if any.
unfoldable pub waited : Option (List Text) → List Text
waited none = []
waited (some peers) = peers

unfoldable pub cleared : List Text → ClusterKillSwitch → ClusterKillSwitch
cleared [] s = s
cleared (p ∷ l) s = record s { remote_acks = Map.insert s.remote_acks (epoch s) Map.empty }

-- `await_quiescence` up to the wait for the peers: the local count, what is sent, the switch after.
unfoldable pub start_quiescence :
    (ℕ → Bool) → ClusterKillSwitch → (ℕ × ℕ) × List (Text × HaltPdu) × ClusterKillSwitch
start_quiescence in_time s =
    let reason = unwrap_or s.last_reason (manual []) in
    let peers = waited s.transport in
    let collected = collect_local in_time s in
    (collected.0, halts s.node (epoch s) reason peers, cleared peers collected.1)

-- What it returns once the peers of `epoch` have acked or the deadline has passed.
unfoldable pub report : ClusterKillSwitch → ℕ → ℕ × ℕ → QuiescenceReport
report s at (local_acked, local_total) =
    let peers = waited s.transport in
    let remote = remote_ack_count s at peers in
    record {
      acked = local_acked + remote;
      total = local_total + length peers;
      timed_out = ltb (local_acked + remote) (local_total + length peers);
      remote_acked = remote;
      remote_total = length peers;
    }

unfoldable pub replies : Option (List Text) → Text → Text → ℕ → List (Text × HaltPdu)
replies none node sender at = []
replies (some peers) node sender at = (sender, ack node at) ∷ []

unfoldable pub acks_at : Option (Map Text (Unit {0})) → Map Text (Unit {0})
acks_at none = Map.empty
acks_at (some set) = set

-- What is sent, and the switch after.
unfoldable pub apply_pdu :
    (ℕ → Bool) → ClusterKillSwitch → HaltPdu → List (Text × HaltPdu) × ClusterKillSwitch
apply_pdu in_time s (halt sender at reason) =
    (replies s.transport s.node sender at, (collect_local in_time (engage_epoch s at reason)).1)
apply_pdu in_time s (ack sender at) = (
  [],
  record s {
    remote_acks =
        Map.insert s.remote_acks at (Map.insert (acks_at (Map.get s.remote_acks at)) sender tt);
  },
)
