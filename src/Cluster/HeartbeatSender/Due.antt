-- ===== src/Cluster/HeartbeatSender/Due.antt =====
-- When a peer's heartbeat is due.
use atomr.Base.{
  ℕ, ◌+◌, ◌-◌, ◌%◌, u64_mod, ◌≤◌, ◌≡◌, Bool, true, false, Option, none, some, Text, text_eq,
  text_beq_iff, leb, arith, ◌∙◌, ap,
}
use atomr.Core.Address.{Address, to_string}
use atomr.Map.{Map, get, get-insert, insert}
use atomr.Cluster.HeartbeatSender.{PeerHeartbeat, HeartbeatSender, is_due, add_peer, record_tick}

unfoldable pub due_entry : HeartbeatSender → Option PeerHeartbeat → ℕ → Bool
due_entry s none now = false
due_entry s (some hb) now = is_due s hb now

-- Whether the sender holds the peer, and its heartbeat is due.
abbrev pub due_at : HeartbeatSender → Address → ℕ → Bool
due_at s addr now = due_entry s (get s.peers (to_string addr)) now

at_self :
    (m : Map Text PeerHeartbeat) (k : Text) (hb : PeerHeartbeat) → get (insert m k hb) k ≡ some hb
at_self m k hb = ground (arith, get-insert m k hb k, text_beq_iff k k)

recorded-due :
    (s : HeartbeatSender) (addr : Address) (hb : PeerHeartbeat) (t u : ℕ)
    → get s.peers (to_string addr) ≡ some hb
    → due_at (record_tick s addr t) addr u ≡ leb s.interval (u - t)
unfolding record_tick due_entry is_due
recorded-due s addr hb t u h =
    rw (h, record_tick)
      (ap (λ o. due_entry s o u)
        (at_self s.peers (to_string addr)
          (record { last_tick = t; ticks = (hb.ticks + 1) % u64_mod })))

-- A peer that is added is due at once, and after a tick that is recorded at `t` it is due again when the
-- interval has passed since `t`, if the clock reads at least the interval when the peer is added.
pub due_again :
    (s : HeartbeatSender) (addr : Address) (now t u : ℕ)
    → s.interval ≤ now
    → (due_at (add_peer s addr now) addr now ≡ true)
      × (due_at (record_tick (add_peer s addr now) addr t) addr u ≡ leb s.interval (u - t))
unfolding add_peer due_entry is_due
due_again s addr now t u h = (
  ap (λ o. due_entry (add_peer s addr now) o now)
        (at_self s.peers (to_string addr) (record { last_tick = now - s.interval; ticks = 0 }))
      ∙ ground arith,
  recorded-due (add_peer s addr now) addr (record { last_tick = now - s.interval; ticks = 0 }) t u
      (at_self s.peers (to_string addr) (record { last_tick = now - s.interval; ticks = 0 })),
)
