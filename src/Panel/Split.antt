-- ===== src/Panel/Split.antt =====
-- crates/panel-server/src/grpc/tunnel_split.rs: a rule over a tunnel as one rule for each hop.
pub mod Chain
mod Tests
use emorelay.Base.{
  ℕ, suc, ◌-◌, ◌%◌, Bool, true, false, Option, none, some, List, [], ◌∷◌, String, ◌==◌,
  if◌then◌else◌, length, unwrap_or,
}
use emorelay.Base.Signed.{ℤ, pos}
use emorelay.Base.Words.{mod32}
use emorelay.Proto.{Rule, TunnelContext}

pub record SplitInput : Type 0 where
  pub rule_id : ℕ
  pub protocol : String
  pub listen_ip : String
  pub listen_port : ℕ
  pub target_host : String
  pub target_port : ℕ
  pub enabled : Bool
  pub bandwidth_mbps : ℤ
  pub max_connections : ℤ
  pub tunnel_id : ℕ
  pub transport : String
  pub remote_af : String

pub record HopInput : Type 0 where
  pub node_id : ℕ
  pub inter_port : Option ℕ
  pub addr : String

-- TunnelRole on the wire.
abbrev pub entry_role : ℕ
entry_role = 1

abbrev pub mid_role : ℕ
mid_role = 2

abbrev pub exit_role : ℕ
exit_role = 3

abbrev pub role_of : ℕ → ℕ → ℕ
role_of i n = if i == 0 then entry_role else (if i == n - 1 then exit_role else mid_role)

-- `hops.get(i + 1)`, seen from the hops that follow.
abbrev pub next_addr : List HopInput → String
next_addr [] = ""
next_addr (h ∷ hops) = h.addr

abbrev pub next_inter_port : List HopInput → ℕ
next_inter_port [] = 0
next_inter_port (h ∷ hops) = unwrap_or h.inter_port 0 % mod32

abbrev pub hop_rule : SplitInput → ℕ → ℕ → HopInput → List HopInput → Rule
hop_rule input n i hop rest = record {
  id = input.rule_id;
  protocol = input.protocol;
  listen_ip = input.listen_ip;
  listen_port = input.listen_port;
  target_host = input.target_host;
  target_port = input.target_port;
  enabled = input.enabled;
  bandwidth_mbps = if i == 0 then input.bandwidth_mbps else pos 0;
  tunnel = some (record {
    tunnel_id = input.tunnel_id;
    role = role_of i n;
    next_hop_addr = next_addr rest;
    next_hop_inter_port = next_inter_port rest;
    self_inter_port = unwrap_or hop.inter_port 0 % mod32;
    transport = input.transport;
    self_ordinal = i;
  });
  max_connections = if i == 0 then input.max_connections else pos 0;
  blocked_protocols = 0;
  extra_targets = [];
  lb_strategy = "";
  send_proxy_protocol = false;
  remote_af = input.remote_af;
}

split_from : SplitInput → ℕ → ℕ → List HopInput → List (ℕ × Rule)
split_from input n i [] = []
split_from input n i (hop ∷ rest) =
    (hop.node_id, hop_rule input n i hop rest) ∷ split_from input n (suc i) rest

pub split_tunnel_rule : SplitInput → List HopInput → List (ℕ × Rule)
unfolding split_from
split_tunnel_rule input hops = split_from input (length hops) 0 hops
