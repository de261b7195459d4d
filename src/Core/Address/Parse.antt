-- ===== src/Core/Address/Parse.antt =====
-- `Address::parse` of crates/atomr-core/src/actor/address.rs.
pub mod RoundTrip
use atomr.Base.{
  ℕ, ◌+◌, ◌-◌, ◌*◌, ◌≡◌, refl, ◌||◌, Option, none, some, [], ◌∷◌, nat_beq, ltb, if◌then◌else◌, Text,
  codes, parse_uint, parse_digits,
}
use atomr.Core.Address.{Address, local, remote}

infixl 5 ◌>>=◌
abbrev ◌>>=◌ {ℓ κ} : {A : Type ℓ} {B : Type κ} → Option A → (A → Option B) → Option B
none >>= f = none
some a >>= f = f a

-- `s.strip_prefix(pat)`
unfoldable pub strip_prefix : Text → Text → Option Text
strip_prefix [] s = some s
strip_prefix (p ∷ ps) [] = none
strip_prefix (p ∷ ps) (c ∷ s) = let rest = strip_prefix ps s in if nat_beq p c then rest else none

-- `s.split_once(pat)`: the text before the first occurrence of `pat`, and that after it.
unfoldable pub split_once : Text → Text → Option (Text × Text)
unfolding strip_prefix
split_once pat [] = elim (strip_prefix pat []) [ some rest ↦ some ([], rest) | none ↦ none ]
split_once pat (c ∷ s) =
    let later = split_once pat s in
    elim (strip_prefix pat (c ∷ s)) [
      | some rest ↦ some ([], rest)
      | none ↦ elim later [ some (before, rest) ↦ some (c ∷ before, rest) | none ↦ none ]
    ]

abbrev pub u16_max : ℕ
u16_max = 65535

-- `str::parse::<u16>`
abbrev pub parse_u16 : Text → Option ℕ
parse_u16 = parse_uint u16_max

pub parse_host_port : Text → Text → Text → Option Address
unfolding split_once parse_uint parse_digits remote
parse_host_port protocol sys host_port = do
  (host, port_text) ← split_once (codes ":") host_port
  port ← parse_u16 port_text
  some (remote protocol sys host port)

pub parse_rest : Text → Text → Option Address
unfolding parse_host_port split_once local
parse_rest protocol rest = elim (split_once (codes "@") rest) [
  | some (sys, host_port) ↦ parse_host_port protocol sys host_port
  | none ↦ some (record (local rest) { protocol = protocol })
]

unfoldable pub parse : Text → Option Address
unfolding parse_rest split_once
parse s = do (protocol, rest) ← split_once (codes "://") s; parse_rest protocol rest

parse-remote :
    parse (codes "akka.tcp://sys@host:1234")
    ≡ some (remote (codes "akka.tcp") (codes "sys") (codes "host") 1234)
unfolding parse remote
parse-remote = refl

parse-local : parse (codes "akka://sys") ≡ some (local (codes "sys"))
unfolding parse local
parse-local = refl
