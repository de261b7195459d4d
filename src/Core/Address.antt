-- ===== src/Core/Address.antt =====
-- crates/atomr-core/src/actor/address.rs: where an actor system is on the network.
pub mod Parse
use atomr.Base.{
  ℕ, ◌≡◌, ◌↔◌, Bool, true, false, ◌&&◌, Option, none, some, ◌++◌, arith, Eq, ◌==◌, nat_eq,
  option_eq, Text, text_eq, codes, decimal, option_beq_iff, text_beq_iff,
}

pub record Address : Type 0 where
  pub protocol : Text
  pub system : Text
  pub host : Option Text
  pub port : Option ℕ

abbrev address_beq : Address → Address → Bool
address_beq a b =
    a.protocol == b.protocol && (a.system == b.system && (a.host == b.host && a.port == b.port))

pub address_beq_iff : (a b : Address) → (address_beq a b ≡ true) ↔ (a ≡ b)
address_beq_iff a b = ground (
  arith,
  text_beq_iff a.protocol b.protocol,
  text_beq_iff a.system b.system,
  option_beq_iff a.host b.host,
  option_beq_iff a.port b.port,
)

instance abbrev pub address_eq : Eq Address
address_eq = record { test = address_beq; test_iff = address_beq_iff }

unfoldable pub local : Text → Address
local system = record { protocol = codes "akka"; system = system; host = none; port = none }

unfoldable pub remote : Text → Text → Text → ℕ → Address
remote protocol system host port = record {
  protocol = protocol;
  system = system;
  host = some host;
  port = some port;
}

abbrev display_location : Address → Option Text → Option ℕ → Text
display_location a (some h) (some p) =
    a.protocol ++ (codes "://" ++ (a.system ++ (codes "@" ++ (h ++ (codes ":" ++ decimal 4 p)))))
display_location a (some h) none = a.protocol ++ (codes "://" ++ a.system)
display_location a none p = a.protocol ++ (codes "://" ++ a.system)

-- `impl Display for Address`; a port is a `u16`, so five digits are enough.
unfoldable pub to_string : Address → Text
unfolding decimal
to_string a = display_location a a.host a.port
