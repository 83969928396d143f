-- ===== src/Panel/Dispatch.antt =====
-- crates/panel-server/src/grpc/commands.rs and tunnel_dispatch.rs: which commands go to which node. The
-- JSON parser of the column `extra_targets` is serde's, and the certificates are issued by the built-in
-- authority; both are arguments.
pub mod Reconcile
pub mod Delivery
mod Tests
use emorelay.Base.{
  ℕ, ◌%◌, Bool, true, false, not, ◌&&◌, ◌||◌, Option, none, some, List, [], ◌∷◌, ◌++◌, String,
  str_eq, ◌==◌, if◌then◌else◌, is_some, unwrap_or,
}
use emorelay.Base.Signed.{ℤ, pos, pos_part}
use emorelay.Base.Words.{mod32}
use emorelay.Proto.{
  Body, applied_rules, rule_ids, Rule, Command, TargetEndpoint, TunnelCredentials, apply_rule,
  remove_rule, restart_rule, reconcile_rules, tunnel_credentials, revoke_tunnel_credentials,
}
use emorelay.Panel.Db.{
  Db, DbRule, Tunnel, TunnelHop, Node, find_tunnel, list_for_tunnel, list_active_for_node,
  list_active_for_tunnel, list_tunnel_ids_for_node, find_hop_for_node, find_node, hop_ids,
}
use emorelay.Panel.Split.{SplitInput, HopInput, split_tunnel_rule}
use emorelay.Panel.Dispatcher.{CommandDispatcher, dispatch, lock_order}

abbrev pub command : Body → Command
command b = record { body = some b }

pub remove_command : ℕ → Command
remove_command rule_id = command (remove_rule rule_id)

pub restart_command : ℕ → Command
restart_command rule_id = command (restart_rule rule_id)

-- Sorted and without repetitions.
pub authoritative_rule_ids : List Command → List ℕ
authoritative_rule_ids cmds = lock_order (rule_ids (applied_rules cmds))

pub reconcile_rules_command : List ℕ → Command
reconcile_rules_command rule_ids = command (reconcile_rules rule_ids)

pub node_block_protocols : Db → ℕ → ℕ
node_block_protocols db node_id = elim (find_node db node_id) [
  | none ↦ 0
  | some n ↦ pos_part n.block_protocols % mod32
]

abbrev pub hop_inputs : Db → List TunnelHop → List HopInput
hop_inputs db [] = []
hop_inputs db (h ∷ hs) =
    record {
      node_id = h.node_id;
      inter_port = h.inter_port;
      addr = elim (find_node db h.node_id) [ none ↦ "" | some n ↦ n.public_ip ];
    }
    ∷ hop_inputs db hs

abbrev pub split_input : DbRule → ℕ → Tunnel → SplitInput
split_input rule tunnel_id tunnel = record {
  rule_id = rule.id;
  protocol = rule.protocol;
  listen_ip = rule.listen_ip;
  listen_port = rule.listen_port % mod32;
  target_host = rule.target_host;
  target_port = rule.target_port % mod32;
  enabled = rule.enabled;
  bandwidth_mbps = unwrap_or rule.bandwidth_mbps (pos 0);
  max_connections = unwrap_or rule.max_connections (pos 0);
  tunnel_id = tunnel_id;
  transport = tunnel.transport;
  remote_af = rule.remote_af;
}

-- Nothing if the tunnel is gone or has no hop.
pub split_for : Db → DbRule → ℕ → Option (List (ℕ × Rule))
split_for db rule tunnel_id = elim (find_tunnel db tunnel_id) [
  | none ↦ none
  | some tunnel ↦ elim (list_for_tunnel db tunnel_id) [
    | [] ↦ none
    | h ∷ hs ↦ some (split_tunnel_rule (split_input rule tunnel_id tunnel) (hop_inputs db (h ∷ hs)))
  ]
]

unfoldable pub rule_target_nodes : Db → DbRule → List ℕ
rule_target_nodes db rule = elim rule.tunnel_id [
  | none ↦ rule.node_id ∷ []
  | some tid ↦ hop_ids (list_for_tunnel db tid)
]

-- Each node gets its part; an answer that says "not delivered" is only logged.
pub dispatch_parts : CommandDispatcher → List (ℕ × Rule) → CommandDispatcher
dispatch_parts d [] = d
dispatch_parts d ((node_id, rule) ∷ parts) =
    dispatch_parts (dispatch d node_id (command (apply_rule (some rule)))).0 parts

unfoldable pub dispatch_rule_remove_to : CommandDispatcher → ℕ → List ℕ → CommandDispatcher × Bool
dispatch_rule_remove_to d rule_id [] = (d, true)
dispatch_rule_remove_to d rule_id (node_id ∷ nodes) =
    let (d', ok) = dispatch d node_id (remove_command rule_id) in
    let (d'', all) = dispatch_rule_remove_to d' rule_id nodes in (d'', ok && all)

pub restart_on : CommandDispatcher → ℕ → List ℕ → CommandDispatcher × Bool
restart_on d rule_id [] = (d, false)
restart_on d rule_id (node_id ∷ nodes) =
    let (d', ok) = dispatch d node_id (restart_command rule_id) in
    let (d'', any_ok) = restart_on d' rule_id nodes in (d'', ok || any_ok)

pub dispatch_rule_restart : Db → CommandDispatcher → DbRule → CommandDispatcher × Bool
unfolding restart_on rule_target_nodes
dispatch_rule_restart db d rule = restart_on d rule.id (rule_target_nodes db rule)

pub dispatch_revoke_tunnel_credentials : CommandDispatcher → ℕ → List ℕ → CommandDispatcher
dispatch_revoke_tunnel_credentials d tunnel_id [] = d
dispatch_revoke_tunnel_credentials d tunnel_id (node_id ∷ nodes) =
    dispatch_revoke_tunnel_credentials
      (dispatch d node_id (command (revoke_tunnel_credentials tunnel_id))).0 tunnel_id nodes

module _ (from_str : String → Option (List TargetEndpoint)) where
  -- A column that does not parse counts as a single target.
  unfoldable pub parse_extra_targets : Option String → List TargetEndpoint
  parse_extra_targets none = []
  parse_extra_targets (some s) = elim (from_str s) [ none ↦ [] | some ts ↦ ts ]

  pub rule_to_proto : DbRule → ℕ → Rule
  unfolding parse_extra_targets
  rule_to_proto rule blocked_protocols = record {
    id = rule.id;
    protocol = rule.protocol;
    listen_ip = rule.listen_ip;
    listen_port = rule.listen_port % mod32;
    target_host = rule.target_host;
    target_port = rule.target_port % mod32;
    enabled = rule.enabled;
    bandwidth_mbps = unwrap_or rule.bandwidth_mbps (pos 0);
    tunnel = none;
    max_connections = unwrap_or rule.max_connections (pos 0);
    blocked_protocols = blocked_protocols;
    extra_targets = parse_extra_targets rule.extra_targets;
    lb_strategy = rule.lb_strategy;
    send_proxy_protocol = rule.send_proxy_protocol;
    remote_af = rule.remote_af;
  }

  pub apply_command : DbRule → ℕ → Command
  unfolding rule_to_proto
  apply_command rule blocked_protocols =
      command (apply_rule (some (rule_to_proto rule blocked_protocols)))

  -- A rule over a tunnel that is gone is not sent at all.
  unfoldable pub dispatch_rule_apply : Db → CommandDispatcher → DbRule → CommandDispatcher
  unfolding apply_command split_for dispatch_parts
  dispatch_rule_apply db d rule = elim rule.tunnel_id [
    | some tid ↦ elim (split_for db rule tid) [ some parts ↦ dispatch_parts d parts | none ↦ d ]
    | none ↦ (dispatch d rule.node_id (apply_command rule (node_block_protocols db rule.node_id))).0
  ]

  module _ (issue : ℕ → ℕ → Option TunnelCredentials) where
    abbrev pub own_applies : List DbRule → ℕ → List Command
    own_applies [] mask = []
    own_applies (r ∷ rs) mask =
        if not (is_some r.tunnel_id)
        then apply_command r mask ∷ own_applies rs mask
        else own_applies rs mask

    -- The parts of a split that belong to the node.
    abbrev pub parts_for : ℕ → List (ℕ × Rule) → List Command
    parts_for node_id [] = []
    parts_for node_id ((nid, proto) ∷ parts) =
        if nid == node_id
        then command (apply_rule (some proto)) ∷ parts_for node_id parts
        else parts_for node_id parts

    abbrev pub tunnel_applies : Db → ℕ → ℕ → List DbRule → List Command
    tunnel_applies db node_id tid [] = []
    tunnel_applies db node_id tid (r ∷ rs) = elim (split_for db r tid) [
      | none ↦ tunnel_applies db node_id tid rs
      | some parts ↦ parts_for node_id parts ++ tunnel_applies db node_id tid rs
    ]

    -- tls and wss need the hop's credentials, and they come first.
    abbrev pub credentials_for : Db → ℕ → Tunnel → List Command
    credentials_for db node_id tunnel =
        if not (str_eq tunnel.transport "tcp")
        then (elim (find_hop_for_node db tunnel.id node_id) [
          | none ↦ []
          | some hop ↦ elim (issue tunnel.id hop.ordinal) [
            | none ↦ []
            | some c ↦ command (tunnel_credentials c) ∷ []
          ]
        ])
        else []

    abbrev pub tunnel_commands : Db → ℕ → List ℕ → List Command
    tunnel_commands db node_id [] = []
    tunnel_commands db node_id (tid ∷ tids) = elim (find_tunnel db tid) [
      | none ↦ tunnel_commands db node_id tids
      | some tunnel ↦
          credentials_for db node_id tunnel
          ++ (tunnel_applies db node_id tid (list_active_for_tunnel db tid)
              ++ tunnel_commands db node_id tids)
    ]

    pub reconcile_commands_for_node : Db → ℕ → List Command
    reconcile_commands_for_node db node_id =
        own_applies (list_active_for_node db node_id) (node_block_protocols db node_id)
        ++ tunnel_commands db node_id (list_tunnel_ids_for_node db node_id)
