-- ===== src/Panel/Util/Tests.antt =====
-- crates/panel-server/src/util.rs: addresses.
use emorelay.Base.{◌≡◌, refl, false}
use emorelay.Base.Ip.{IpAddr, v4}
use emorelay.Panel.Util.{is_internal_ip, is_internal_v4}

-- 100.64.0.1
abbrev carrier : IpAddr
carrier = v4 (record { a = 100; b = 64; c = 0; d = 1 })

carrier_literal_passes : is_internal_ip carrier ≡ false
unfolding is_internal_ip is_internal_v4
carrier_literal_passes = refl
