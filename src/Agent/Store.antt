-- ===== src/Agent/Store.antt =====
-- crates/node-agent/src/store.rs: the rules that a node keeps on disk. The JSON codec is serde's, and
-- what the file system does at each call is an argument.
pub mod RoundTrip
mod Tests
use emorelay.Base.{
  ℕ, Bool, true, false, Option, none, some, List, [], ◌∷◌, String, take, if◌then◌else◌,
}
use emorelay.Base.Signed.{ℤ}
use emorelay.Proto.{TargetEndpoint, TunnelContext, Rule}

pub record TargetJson : Type 0 where
  pub host : String
  pub port : ℕ

pub record TunnelJson : Type 0 where
  pub tunnel_id : ℕ
  pub role : ℕ
  pub next_hop_addr : String
  pub next_hop_inter_port : ℕ
  pub self_inter_port : ℕ
  pub transport : String
  pub self_ordinal : ℕ

pub record RuleJson : Type 0 where
  pub id : ℕ
  pub protocol : String
  pub listen_ip : String
  pub listen_port : ℕ
  pub target_host : String
  pub target_port : ℕ
  pub enabled : Bool
  pub bandwidth_mbps : ℤ
  pub tunnel : Option TunnelJson
  pub max_connections : ℤ
  pub blocked_protocols : ℕ
  pub extra_targets : List TargetJson
  pub lb_strategy : String
  pub send_proxy_protocol : Bool
  pub remote_af : String

abbrev pub json_of_targets : List TargetEndpoint → List TargetJson
json_of_targets [] = []
json_of_targets (t ∷ ts) = record { host = t.host; port = t.port } ∷ json_of_targets ts

abbrev pub targets_of_json : List TargetJson → List TargetEndpoint
targets_of_json [] = []
targets_of_json (t ∷ ts) = record { host = t.host; port = t.port } ∷ targets_of_json ts

abbrev pub json_of_tunnel : Option TunnelContext → Option TunnelJson
json_of_tunnel none = none
json_of_tunnel (some t) = some (record {
  tunnel_id = t.tunnel_id;
  role = t.role;
  next_hop_addr = t.next_hop_addr;
  next_hop_inter_port = t.next_hop_inter_port;
  self_inter_port = t.self_inter_port;
  transport = t.transport;
  self_ordinal = t.self_ordinal;
})

abbrev pub tunnel_of_json : Option TunnelJson → Option TunnelContext
tunnel_of_json none = none
tunnel_of_json (some t) = some (record {
  tunnel_id = t.tunnel_id;
  role = t.role;
  next_hop_addr = t.next_hop_addr;
  next_hop_inter_port = t.next_hop_inter_port;
  self_inter_port = t.self_inter_port;
  transport = t.transport;
  self_ordinal = t.self_ordinal;
})

unfoldable pub json_of_rule : Rule → RuleJson
json_of_rule r = record {
  id = r.id;
  protocol = r.protocol;
  listen_ip = r.listen_ip;
  listen_port = r.listen_port;
  target_host = r.target_host;
  target_port = r.target_port;
  enabled = r.enabled;
  bandwidth_mbps = r.bandwidth_mbps;
  tunnel = json_of_tunnel r.tunnel;
  max_connections = r.max_connections;
  blocked_protocols = r.blocked_protocols;
  extra_targets = json_of_targets r.extra_targets;
  lb_strategy = r.lb_strategy;
  send_proxy_protocol = r.send_proxy_protocol;
  remote_af = r.remote_af;
}

pub rule_of_json : RuleJson → Rule
rule_of_json r = record {
  id = r.id;
  protocol = r.protocol;
  listen_ip = r.listen_ip;
  listen_port = r.listen_port;
  target_host = r.target_host;
  target_port = r.target_port;
  enabled = r.enabled;
  bandwidth_mbps = r.bandwidth_mbps;
  tunnel = tunnel_of_json r.tunnel;
  max_connections = r.max_connections;
  blocked_protocols = r.blocked_protocols;
  extra_targets = targets_of_json r.extra_targets;
  lb_strategy = r.lb_strategy;
  send_proxy_protocol = r.send_proxy_protocol;
  remote_af = r.remote_af;
}

abbrev pub jsons_of_rules : List Rule → List RuleJson
jsons_of_rules [] = []
jsons_of_rules (r ∷ rs) = json_of_rule r ∷ jsons_of_rules rs

abbrev pub rules_of_jsons : List RuleJson → List Rule
rules_of_jsons [] = []
rules_of_jsons (r ∷ rs) = rule_of_json r ∷ rules_of_jsons rs

-- The state file and the temporary file beside it.
pub record Disk : Type 0 where
  pub state : Option (List ℕ)
  pub tmp : Option (List ℕ)

-- Where a save ends: an error, or a crash, when the temporary file was not made, when so many bytes
-- were written, or before the rename; or an error of the write that only the flush reports, after so
-- many bytes, which is ignored, so that the rename follows; or nothing goes wrong.
pub data Ending : Type 0 where
  create_fails : Ending
  write_stops : ℕ → Ending
  rename_fails : Ending
  flush_fails : ℕ → Ending
  completes : Ending

module _ (from_slice : List ℕ → Option (List RuleJson)) where
  abbrev pub parsed : List ℕ → Option (List Rule)
  parsed bytes = elim (from_slice bytes) [ none ↦ none | some js ↦ some (rules_of_jsons js) ]

  -- Nothing is an error: the read fails for another reason than that there is no file, or the file
  -- does not parse.
  pub load : Bool → Disk → Option (List Rule)
  load readable d =
      if readable then (elim d.state [ none ↦ some [] | some bytes ↦ parsed bytes ]) else none

module _ (to_vec : List RuleJson → List ℕ) where
  -- The disk afterwards, and whether the save succeeds.
  pub save : Disk → List Rule → Ending → Disk × Bool
  save d rules create_fails = (d, false)
  save d rules (write_stops n) =
      (record d { tmp = some (take n (to_vec (jsons_of_rules rules))) }, false)
  save d rules rename_fails = (record d { tmp = some (to_vec (jsons_of_rules rules)) }, false)
  save d rules (flush_fails n) =
      (record { state = some (take n (to_vec (jsons_of_rules rules))); tmp = none }, true)
  save d rules completes =
      (record { state = some (to_vec (jsons_of_rules rules)); tmp = none }, true)
