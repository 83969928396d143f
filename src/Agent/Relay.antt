-- ===== src/Agent/Relay.antt =====
-- crates/node-agent/src/relay/mod.rs and the connection part of relay/tcp.rs: to which address a connection
-- is forwarded. Whether a text is an address literal, what a name resolves to and which connects succeed
-- are arguments. A masked test of bits is written as a test of the quotient.
pub mod Guard
mod Tests
use emorelay.Base.{
  ℕ, ◌/◌, Bool, true, false, not, ◌&&◌, ◌||◌, Option, none, some, List, [], ◌∷◌, ◌++◌, String,
  str_eq, ◌==◌, if◌then◌else◌, get_elem?, retain, is_some,
}
use emorelay.Base.Ip.{
  Ipv4Addr, Ipv6Addr, IpAddr, v4, v6, is_v4, is_v6, is_loopback, is_private, is_link_local,
  is_unspecified, is_broadcast, is_loopback_v6, is_unspecified_v6, to_ipv4_mapped,
}

-- The last test is 100.64.0.0/10.
unfoldable pub internal_v4 : Ipv4Addr → Bool
internal_v4 ip =
    is_loopback ip
    || (is_private ip
        || (is_link_local ip
            || (is_unspecified ip || (is_broadcast ip || (ip.a == 100 && ip.b / 64 == 1)))))

-- fc00::/7 and fe80::/10 are tests of the first segment.
unfoldable pub is_internal_addr : IpAddr → Bool
unfolding internal_v4
is_internal_addr (v4 ip) = internal_v4 ip
is_internal_addr (v6 ip) = elim (to_ipv4_mapped ip) [
  | some m ↦ internal_v4 m
  | none ↦ is_loopback_v6 ip || (is_unspecified_v6 ip || (ip.s0 / 512 == 126 || ip.s0 / 64 == 1018))
]

unfoldable pub filter_af : List IpAddr → String → List IpAddr
filter_af ips remote_af =
    if str_eq remote_af "v4"
    then retain is_v4 ips
    else (if str_eq remote_af "v6" then retain is_v6 ips else ips)

pub udp_bind_addr_for : IpAddr → String
udp_bind_addr_for ip = if is_v6 ip then "[::]:0" else "0.0.0.0:0"

-- The addresses tried for a target, with its place in the pool.
abbrev pub tag : ℕ → List IpAddr → List (ℕ × IpAddr)
tag idx [] = []
tag idx (ip ∷ ips) = (idx, ip) ∷ tag idx ips

module _ (parse : String → Option IpAddr) where
  -- A literal is let through: the panel has judged it.
  unfoldable pub guard_resolved_target : String → IpAddr → Bool
  unfolding is_internal_addr
  guard_resolved_target target_host peer =
      if is_some (parse target_host) then true else not (is_internal_addr peer)

  -- The connects of one target, in order, until one succeeds; and the addresses that were tried.
  unfoldable pub try_ips :
      (IpAddr → ℕ → Bool) → String → ℕ → List IpAddr → Option IpAddr × List IpAddr
  unfolding guard_resolved_target
  try_ips connect host port [] = (none, [])
  try_ips connect host port (ip ∷ ips) =
      let (found, tried) = try_ips connect host port ips in
      if not (guard_resolved_target host ip)
      then (found, tried)
      else (if connect ip port then (some ip, ip ∷ []) else (found, ip ∷ tried))

  -- The targets in the order that was chosen. A name that does not resolve counts as an empty list
  -- here: both are passed over.
  pub connect_targets :
      (String → List IpAddr)
      → (IpAddr → ℕ → Bool)
      → List (String × ℕ)
      → String
      → List ℕ
      → Option (ℕ × IpAddr) × List (ℕ × IpAddr)
  unfolding try_ips filter_af
  connect_targets resolve connect pool remote_af [] = (none, [])
  connect_targets resolve connect pool remote_af (idx ∷ order) =
      let rest = connect_targets resolve connect pool remote_af order in
      elim (get_elem? pool idx) [
        | none ↦ rest
        | some t ↦
            let (got, tried) = try_ips connect t.0 t.1 (filter_af (resolve t.0) remote_af) in
            elim got [
              | some ip ↦ (some (idx, ip), tag idx tried)
              | none ↦ (rest.0, tag idx tried ++ rest.1)
            ]
      ]
