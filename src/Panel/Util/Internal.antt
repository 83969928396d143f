-- ===== src/Panel/Util/Internal.antt =====
-- The panel's judgement of an address and the agent's.
use emorelay.Base.{◌/◌, ◌≡◌, Bool, false, ◌&&◌, ◌||◌, Option, none, some, ◌==◌, arith}
use emorelay.Base.Ip.{
  IpAddr, Ipv4Addr, v4, v6, is_broadcast, is_loopback_v6, is_unspecified_v6, to_ipv4_mapped,
}
use emorelay.Agent.Relay.{is_internal_addr, internal_v4}
use emorelay.Panel.Util.{is_internal_ip, is_internal_v4}

-- Addresses of carrier networks, 100.64.0.0/10, and the broadcast address.
abbrev pub shared_v4 : Ipv4Addr → Bool
shared_v4 ip = is_broadcast ip || (ip.a == 100 && ip.b / 64 == 1)

abbrev pub shared : IpAddr → Bool
shared (v4 ip) = shared_v4 ip
shared (v6 ip) = elim (to_ipv4_mapped ip) [ some m ↦ shared_v4 m | none ↦ false ]

internal_v4-is_internal_v4 : (ip : Ipv4Addr) → internal_v4 ip ≡ (is_internal_v4 ip || shared_v4 ip)
unfolding internal_v4 is_internal_v4
internal_v4-is_internal_v4 ip = ground arith

mapped_or :
    (o : Option Ipv4Addr) (rest : Bool)
    → (elim o [ some m ↦ internal_v4 m | none ↦ rest ]) ≡ (
        (elim o [ some m ↦ is_internal_v4 m | none ↦ rest ])
        || (elim o [ some m ↦ shared_v4 m | none ↦ false ]))
mapped_or none rest = ground arith
mapped_or (some m) rest = internal_v4-is_internal_v4 m

-- What the agent refuses as the address of a name is what the panel refuses as a literal of a user who
-- is no administrator, and besides only the addresses of carrier networks and the broadcast address,
-- plain or mapped into IPv6.
pub is_internal_addr-is_internal_ip :
    (ip : IpAddr) → is_internal_addr ip ≡ (is_internal_ip ip || shared ip)
unfolding is_internal_addr is_internal_ip
is_internal_addr-is_internal_ip (v4 ip) = internal_v4-is_internal_v4 ip
is_internal_addr-is_internal_ip (v6 ip) =
    mapped_or (to_ipv4_mapped ip)
      (is_loopback_v6 ip || (is_unspecified_v6 ip || (ip.s0 / 512 == 126 || ip.s0 / 64 == 1018)))
