-- ===== src/Cluster/Leader.antt =====
-- `elect_leader` of crates/atomr-cluster/src/leader.rs.
pub mod Election
use atomr.Base.{Bool, true, false, ◌&&◌, Option, none, some, List, Text}
use mathlib.Core.Option
use atomr.Core.Address.{Address, to_string}
use atomr.Keyed.{retain}
use atomr.Sorted.{sort_by_key, first}
use atomr.Cluster.Member.{MemberStatus, Member}
use atomr.Cluster.Reachability.{Reachability, is_reachable}
use atomr.Cluster.Membership.{MembershipState}

abbrev pub can_lead : MemberStatus → Bool
can_lead MemberStatus.up = true
can_lead MemberStatus.leaving = true
can_lead _ = false

abbrev pub eligible : Reachability → Member → Bool
eligible r m = can_lead m.status && is_reachable r m.address

abbrev pub display : Member → Text
display m = to_string m.address

unfoldable pub elect_leader : MembershipState → Option Address
elect_leader s =
    Option.map (λ (m : Member). m.address)
      (first (sort_by_key display (retain (eligible s.reachability) s.members)))
