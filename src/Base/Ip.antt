-- ===== src/Base/Ip.antt =====
-- `std::net::IpAddr`: the octets of an IPv4 address, the segments of an IPv6 address, and the methods of
-- the standard library that the code calls on them.
use Prim.Native.Nat.{ℕ, ◌/◌, ◌%◌}
use mathlib.Core.Bool.{Bool, true, false, ◌&&◌, ◌||◌}
use mathlib.Core.Option.{Option, none, some}
use emorelay.Base.Tests.{◌==◌, leb, if◌then◌else◌}

pub record Ipv4Addr : Type 0 where
  pub a : ℕ
  pub b : ℕ
  pub c : ℕ
  pub d : ℕ

pub record Ipv6Addr : Type 0 where
  pub s0 : ℕ
  pub s1 : ℕ
  pub s2 : ℕ
  pub s3 : ℕ
  pub s4 : ℕ
  pub s5 : ℕ
  pub s6 : ℕ
  pub s7 : ℕ

pub data IpAddr : Type 0 where
  v4 : Ipv4Addr → IpAddr
  v6 : Ipv6Addr → IpAddr

abbrev pub is_v4 : IpAddr → Bool
is_v4 (v4 ip) = true
is_v4 (v6 ip) = false

abbrev pub is_v6 : IpAddr → Bool
is_v6 (v4 ip) = false
is_v6 (v6 ip) = true

-- 127.0.0.0/8
abbrev pub is_loopback : Ipv4Addr → Bool
is_loopback ip = ip.a == 127

-- 10.0.0.0/8, 172.16.0.0/12, 192.168.0.0/16
abbrev pub is_private : Ipv4Addr → Bool
is_private ip =
    ip.a == 10 || ((ip.a == 172 && (leb 16 ip.b && leb ip.b 31)) || (ip.a == 192 && ip.b == 168))

-- 169.254.0.0/16
abbrev pub is_link_local : Ipv4Addr → Bool
is_link_local ip = ip.a == 169 && ip.b == 254

abbrev pub is_unspecified : Ipv4Addr → Bool
is_unspecified ip = ip.a == 0 && (ip.b == 0 && (ip.c == 0 && ip.d == 0))

abbrev pub is_broadcast : Ipv4Addr → Bool
is_broadcast ip = ip.a == 255 && (ip.b == 255 && (ip.c == 255 && ip.d == 255))

abbrev pub starts_zero : Ipv6Addr → Bool
starts_zero ip = ip.s0 == 0 && (ip.s1 == 0 && (ip.s2 == 0 && (ip.s3 == 0 && ip.s4 == 0)))

-- ::1
abbrev pub is_loopback_v6 : Ipv6Addr → Bool
is_loopback_v6 ip = starts_zero ip && (ip.s5 == 0 && (ip.s6 == 0 && ip.s7 == 1))

-- ::
abbrev pub is_unspecified_v6 : Ipv6Addr → Bool
is_unspecified_v6 ip = starts_zero ip && (ip.s5 == 0 && (ip.s6 == 0 && ip.s7 == 0))

-- ::ffff:a.b.c.d
abbrev pub to_ipv4_mapped : Ipv6Addr → Option Ipv4Addr
to_ipv4_mapped ip =
    if starts_zero ip && ip.s5 == 65535
    then some (record { a = ip.s6 / 256; b = ip.s6 % 256; c = ip.s7 / 256; d = ip.s7 % 256 })
    else none
