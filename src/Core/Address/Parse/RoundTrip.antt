-- ===== src/Core/Address/Parse/RoundTrip.antt =====
-- Which addresses are read back as they are written.
use atomr.Base.{
  ℕ, ◌≤◌, ◌≡◌, ◌≢◌, ◌∙◌, refl, Option, none, some, [], ◌∷◌, ◌++◌, arith, All, Text, codes, decimal,
  nat_beq_iff, parse_uint-decimal,
}
use atomr.Core.Address.{Address, local, remote, to_string}
use atomr.Core.Address.Parse.{strip_prefix, split_once, u16_max, parse_host_port, parse_rest, parse}

strip_prefix-append : (pat rest : Text) → strip_prefix pat (pat ++ rest) ≡ some rest
unfolding strip_prefix
strip_prefix-append [] rest = refl
strip_prefix-append (p ∷ pat) rest = ground (arith, nat_beq_iff p p, strip_prefix-append pat rest)

strip_prefix_other :
    (p : ℕ) (pat : Text) (c : ℕ) (s : Text) → c ≢ p → strip_prefix (p ∷ pat) (c ∷ s) ≡ none
unfolding strip_prefix
strip_prefix_other p pat c s n = ground (arith, nat_beq_iff p c)

split_once_first :
    (p : ℕ) (pat s rest : Text)
    → All (λ c. c ≢ p) s
    → split_once (p ∷ pat) (s ++ (p ∷ pat ++ rest)) ≡ some (s, rest)
unfolding split_once
split_once_first p pat [] rest h = rw (strip_prefix-append (p ∷ pat) rest, split_once) refl
split_once_first p pat (c ∷ s) rest h =
    rw
      (
        strip_prefix_other p pat c (s ++ (p ∷ pat ++ rest)) h.0,
        split_once_first p pat s rest h.1,
        split_once,
      )
      refl

split_once-none : (p : ℕ) (pat s : Text) → All (λ c. c ≢ p) s → split_once (p ∷ pat) s ≡ none
unfolding split_once
split_once-none p pat [] h = unfold strip_prefix in refl
split_once-none p pat (c ∷ s) h =
    rw (strip_prefix_other p pat c s h.0, split_once-none p pat s h.1, split_once) refl

-- A host with a port that fits, or neither.
abbrev pub IsLocation : Option Text → Option ℕ → Type 0
IsLocation none none = Unit
IsLocation (some host) (some port) = All (λ c. c ≢ b':') host × (port ≤ u16_max)
IsLocation _ _ = ⊥

-- No separator stands in the part before it.
abbrev pub IsReadable : Address → Type 0
IsReadable a =
    All (λ c. c ≢ b':') a.protocol × All (λ c. c ≢ b'@') a.system × IsLocation a.host a.port

parse-append :
    (protocol rest : Text)
    → All (λ c. c ≢ b':') protocol
    → parse (protocol ++ (codes "://" ++ rest)) ≡ parse_rest protocol rest
unfolding parse
parse-append protocol rest h =
    rw (split_once_first b':' (b'/' ∷ b'/' ∷ []) protocol rest h, parse) refl

parse_rest-append :
    (protocol system host_port : Text)
    → All (λ c. c ≢ b'@') system
    → parse_rest protocol (system ++ (codes "@" ++ host_port))
      ≡ parse_host_port protocol system host_port
unfolding parse_rest
parse_rest-append protocol system host_port h =
    rw (split_once_first b'@' [] system host_port h, parse_rest) refl

parse_host_port-append :
    (protocol system host : Text) (port : ℕ)
    → All (λ c. c ≢ b':') host
    → port ≤ u16_max
    → parse_host_port protocol system (host ++ (codes ":" ++ decimal 4 port))
      ≡ some (remote protocol system host port)
unfolding parse_host_port
parse_host_port-append protocol system host port h n =
    rw
      (
        split_once_first b':' [] host (decimal 4 port) h,
        parse_uint-decimal u16_max 4 port (omega (arith, n)) n,
        parse_host_port,
      )
      refl

parse_rest-local :
    (protocol system : Text)
    → All (λ c. c ≢ b'@') system
    → parse_rest protocol system ≡ some (record (local system) { protocol = protocol })
unfolding parse_rest
parse_rest-local protocol system h = rw (split_once-none b'@' [] system h, parse_rest) refl

parse_printed :
    (protocol system : Text) (host : Option Text) (port : Option ℕ)
    → All (λ c. c ≢ b':') protocol
    → All (λ c. c ≢ b'@') system
    → IsLocation host port
    → parse (to_string (record { protocol = protocol; system = system; host = host; port = port }))
      ≡ some (record { protocol = protocol; system = system; host = host; port = port })
unfolding to_string local remote
parse_printed protocol system none none p s l =
    parse-append protocol system p ∙ parse_rest-local protocol system s
parse_printed protocol system none (some port) p s l = absurd l
parse_printed protocol system (some host) none p s l = absurd l
parse_printed protocol system (some host) (some port) p s (h, n) =
    parse-append protocol _ p
    ∙ parse_rest-append protocol system _ s
    ∙ parse_host_port-append protocol system host port h n

-- An address whose protocol and host hold no `:`, whose system holds no `@`, and that has a host with a
-- port that fits in 16 bits or neither, is read back as it is written.
pub parse-to_string : (a : Address) → IsReadable a → parse (to_string a) ≡ some a
parse-to_string a (p, s, l) = parse_printed a.protocol a.system a.host a.port p s l
