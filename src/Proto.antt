-- ===== src/Proto.antt =====
-- crates/common/proto: the messages between the panel and the agent. Ids and u32 fields are
-- numbers; an i64 that the code compares with zero is a ℤ.
use emorelay.Base.{ℕ, Bool, Option, none, some, List, [], ◌∷◌, String}
use emorelay.Base.Signed.{ℤ}

pub record TargetEndpoint : Type 0 where
  pub host : String
  pub port : ℕ

-- `role` is the number on the wire: 1 entry, 2 mid, 3 exit.
pub record TunnelContext : Type 0 where
  pub tunnel_id : ℕ
  pub role : ℕ
  pub next_hop_addr : String
  pub next_hop_inter_port : ℕ
  pub self_inter_port : ℕ
  pub transport : String
  pub self_ordinal : ℕ

pub record Rule : Type 0 where
  pub id : ℕ
  pub protocol : String
  pub listen_ip : String
  pub listen_port : ℕ
  pub target_host : String
  pub target_port : ℕ
  pub enabled : Bool
  pub bandwidth_mbps : ℤ
  pub tunnel : Option TunnelContext
  pub max_connections : ℤ
  pub blocked_protocols : ℕ
  pub extra_targets : List TargetEndpoint
  pub lb_strategy : String
  pub send_proxy_protocol : Bool
  pub remote_af : String

pub record TunnelCredentials : Type 0 where
  pub tunnel_id : ℕ
  pub ordinal : ℤ
  pub server_cert_pem : String
  pub server_key_pem : String
  pub client_cert_pem : String
  pub client_key_pem : String
  pub ca_pem : String

pub record UpgradeAgent : Type 0 where
  pub version : String
  pub base_url : String
  pub sha256_amd64 : String
  pub sha256_arm64 : String

pub record Probe : Type 0 where
  pub probe_id : String
  pub target_host : String
  pub target_port : ℕ
  pub count : ℕ

pub data Body : Type 0 where
  apply_rule : Option Rule → Body
  remove_rule : ℕ → Body
  enable_rule : ℕ → Body
  disable_rule : ℕ → Body
  restart_rule : ℕ → Body
  tunnel_credentials : TunnelCredentials → Body
  revoke_tunnel_credentials : ℕ → Body
  upgrade_agent : UpgradeAgent → Body
  reconcile_rules : List ℕ → Body
  probe : Probe → Body

pub record Command : Type 0 where
  pub body : Option Body

-- The rules of the ApplyRules among some commands.
abbrev pub applied : Command → Option Rule
applied c = elim c.body [ none ↦ none | some b ↦ elim b [ apply_rule r ↦ r | _ ↦ none ] ]

abbrev pub applied_rules : List Command → List Rule
applied_rules [] = []
applied_rules (c ∷ cs) =
    let rest = applied_rules cs in elim (applied c) [ none ↦ rest | some r ↦ r ∷ rest ]

abbrev pub rule_ids : List Rule → List ℕ
rule_ids [] = []
rule_ids (r ∷ rs) = r.id ∷ rule_ids rs
