-- ===== src/Cluster/HeartbeatSender.antt =====
-- crates/atomr-cluster/src/heartbeat_sender.rs. An `Instant` is a number of nanoseconds, which is no less
-- than the interval; `duration_since` stops at 0. The lock around the map makes each call one step.
pub mod Due
use atomr.Base.{
  ℕ, ◌+◌, ◌-◌, ◌%◌, ◌<◌, ◌≡◌, refl, Bool, true, false, Option, none, some, List, [], ◌∷◌, Eq, ◌==◌,
  Text, text_eq, text_beq_iff, leb, if◌then◌else◌, u64_mod, arith, unwrap_or,
}
use atomr.Core.Address.{Address, to_string}
use atomr.Core.Address.Parse.{parse}
use atomr.Map.{Map, get, empty, insert, remove, size, get-insert}

pub record PeerHeartbeat : Type 0 where
  pub last_tick : ℕ
  pub ticks : ℕ

pub record HeartbeatSender : Type 0 where
  pub interval : ℕ
  pub peers : Map Text PeerHeartbeat

-- `none` is the panic on an interval of zero.
unfoldable pub new : ℕ → Option HeartbeatSender
new interval = if leb interval 0 then none else some (record { interval = interval; peers = empty })

unfoldable pub add_peer : HeartbeatSender → Address → ℕ → HeartbeatSender
add_peer s addr now = record s {
  peers = insert s.peers (to_string addr) (record { last_tick = now - s.interval; ticks = 0 });
}

unfoldable pub remove_peer : HeartbeatSender → Address → HeartbeatSender
remove_peer s addr = record s { peers = remove s.peers (to_string addr) }

unfoldable pub peer_count : HeartbeatSender → ℕ
peer_count s = size s.peers

unfoldable pub is_due : HeartbeatSender → PeerHeartbeat → ℕ → Bool
is_due s hb now = leb s.interval (now - hb.last_tick)

-- The address is read back from the entry's key.
due_entries : HeartbeatSender → List (Text × PeerHeartbeat) → ℕ → List Address
unfolding is_due
due_entries s [] now = []
due_entries s ((k, hb) ∷ l) now =
    let rest = due_entries s l now in
    if is_due s hb now then elim (parse k) [ some a ↦ a ∷ rest | none ↦ rest ] else rest

unfoldable pub due_peers : HeartbeatSender → ℕ → List Address
unfolding due_entries
due_peers s now = due_entries s s.peers.entries now

unfoldable pub record_tick : HeartbeatSender → Address → ℕ → HeartbeatSender
record_tick s addr now = elim (get s.peers (to_string addr)) [
  | none ↦ s
  | some hb ↦ record s {
    peers =
        insert s.peers (to_string addr)
          (record { last_tick = now; ticks = (hb.ticks + 1) % u64_mod });
  }
]
