-- ===== src/Panel/Util.antt =====
-- crates/panel-server/src/util.rs: the checks of addresses. Whether a text is an address literal is an
-- argument. A masked test of bits is written as a test of the quotient.
pub mod Internal
pub mod Host
mod Tests
use emorelay.Base.{ℕ, ◌/◌, Bool, true, false, ◌&&◌, ◌||◌, Option, none, some, String, ◌==◌, is_some}
use emorelay.Base.Ip.{
  Ipv4Addr, IpAddr, v4, v6, is_loopback, is_private, is_link_local, is_unspecified, is_loopback_v6,
  is_unspecified_v6, to_ipv4_mapped,
}

unfoldable pub is_internal_v4 : Ipv4Addr → Bool
is_internal_v4 ip = is_loopback ip || (is_private ip || (is_link_local ip || is_unspecified ip))

-- The judgement of an address literal.
unfoldable pub is_internal_ip : IpAddr → Bool
unfolding is_internal_v4
is_internal_ip (v4 ip) = is_internal_v4 ip
is_internal_ip (v6 ip) = elim (to_ipv4_mapped ip) [
  | some m ↦ is_internal_v4 m
  | none ↦ is_loopback_v6 ip || (is_unspecified_v6 ip || (ip.s0 / 512 == 126 || ip.s0 / 64 == 1018))
]

module _ (parse : String → Option IpAddr) where
  unfoldable pub is_valid_ip : String → Bool
  is_valid_ip s = is_some (parse s)

  -- A name is not internal: the agent judges what it resolves to.
  unfoldable pub is_internal_target_ip : String → Bool
  unfolding is_internal_ip
  is_internal_target_ip host = elim (parse host) [ none ↦ false | some ip ↦ is_internal_ip ip ]
