-- ===== src/Panel/Rules/Create.antt =====
-- crates/panel-server/src/routes/rules.rs: the handler `create`.
pub mod Admission
use emorelay.Base.{
  ℕ, zero, suc, ◌+◌, Bool, true, false, not, ◌&&◌, ◌||◌, Option, none, some, List, [], ◌∷◌, ◌++◌,
  String, str_eq, ◌==◌, leb, ltb, length, if◌then◌else◌, unwrap_or, is_some, retain,
}
use emorelay.Base.Signed.{ℤ, pos, negsuc}
use emorelay.Base.Text.{trim, is_empty}
use emorelay.Base.Result.{Result, ok, err, guard, require, ok_or, ◌>>=◌, ◌>>◌}
use emorelay.Proto.{TargetEndpoint}
use emorelay.Panel.Db.{
  Db, DbRule, Node, TunnelHop, first, find_node, list_for_tunnel, set_targets,
  set_send_proxy_protocol, opt_is, find_profile,
}
use emorelay.Panel.Util.{is_valid_ip, is_internal_target_ip}
use emorelay.Panel.Util.Host.{is_valid_target_host}
use emorelay.Panel.Settings.{reserved_ports}
use emorelay.Panel.Grants.{node_granted, tunnel_granted, tunnel_grant_num}
use emorelay.Panel.Ports.{validate_protocol, choose_port, ensure_no_protocol_conflict, insert_rule}
use emorelay.Panel.Dispatch.{dispatch_rule_apply}
use emorelay.Panel.Rules.{
  Formats, Reason, owner_not_self, owner_missing, admin_only, proxy_on_tunnel, bad_remote_af,
  negative_connections, empty_name, bad_protocol, bad_port, bad_listen_ip, bad_target_host,
  internal_target, tunnel_extra_targets, node_missing, tunnel_not_granted, tunnel_missing,
  not_entry_node, node_not_granted, rules_quota, tunnel_quota, bad_profile, profile_missing,
  port_refused, protocol_conflict, duplicate, ApiError, bad_request, not_found, AuthUser, User,
  Site, find_user, find_by_id, record_audit,
}
use emorelay.Panel.Rules.Targets.{validate_targets}

pub record CreateRuleRequest : Type 0 where
  pub node_id : ℕ
  pub name : String
  pub protocol : String
  pub listen_ip : String
  pub listen_port : Option ℕ
  pub target_host : String
  pub target_port : ℕ
  pub bandwidth_profile_id : Option ℤ
  pub tunnel_id : Option ℕ
  pub user_id : Option ℕ
  pub max_connections : Option ℤ
  pub extra_targets : Option (List TargetEndpoint)
  pub lb_strategy : Option String
  pub send_proxy_protocol : Option Bool
  pub remote_af : Option String

abbrev pub is_true : Option Bool → Bool
is_true none = false
is_true (some b) = b

abbrev pub is_negative : Option ℤ → Bool
is_negative none = false
is_negative (some (pos n)) = false
is_negative (some (negsuc n)) = true

abbrev pub is_remote_af : String → Bool
is_remote_af s = str_eq s "auto" || (str_eq s "v4" || str_eq s "v6")

-- `max_connections.filter(|n| *n > 0)`
abbrev pub positive_only : Option ℤ → Option ℤ
positive_only none = none
positive_only (some (pos zero)) = none
positive_only (some (pos (suc n))) = some (pos (suc n))
positive_only (some (negsuc n)) = none

abbrev pub owner_of : Site → AuthUser → Option ℕ → Result ApiError ℕ
owner_of s auth none = ok auth.sub
owner_of s auth (some uid) = elim auth.is_admin [
  | false ↦ do guard (uid == auth.sub) (bad_request owner_not_self); ok uid
  | true ↦ do guard (is_some (find_user s uid)) (bad_request owner_missing); ok uid
]

-- The columns that only an administrator sets.
abbrev pub sets_managed : CreateRuleRequest → Bool
sets_managed req =
    is_some req.bandwidth_profile_id
    || (is_some req.max_connections || is_some req.send_proxy_protocol)

-- The checks of the request alone.
abbrev pub request_checks : Formats → Bool → CreateRuleRequest → List (Bool × ApiError)
request_checks formats is_admin req =
    (is_admin || not (sets_managed req), bad_request admin_only)
    ∷ (not (is_true req.send_proxy_protocol && is_some req.tunnel_id), bad_request proxy_on_tunnel)
    ∷ (is_remote_af (unwrap_or req.remote_af "auto"), bad_request bad_remote_af)
    ∷ (not (is_negative req.max_connections), bad_request negative_connections)
    ∷ (not (is_empty (trim req.name)), bad_request empty_name)
    ∷ (validate_protocol req.protocol, bad_request bad_protocol)
    ∷ (not (opt_is req.listen_port 0 || req.target_port == 0), bad_request bad_port)
    ∷ (is_valid_ip formats.parse_ip req.listen_ip, bad_request bad_listen_ip)
    ∷ (is_valid_target_host formats.parse_ip req.target_host, bad_request bad_target_host)
    ∷ (
      is_admin || not (is_internal_target_ip formats.parse_ip (trim req.target_host)),
      bad_request internal_target,
    )
    ∷ (
      not (is_some req.tunnel_id && is_some (first (λ t. true) (unwrap_or req.extra_targets []))),
      bad_request tunnel_extra_targets,
    )
    ∷ []

unfoldable pub check_request : Formats → Bool → CreateRuleRequest → Result ApiError (Unit {0})
check_request formats is_admin req = require (request_checks formats is_admin req)

-- The owner's grant: of the tunnel, whose entry the node must be, or of the node.
unfoldable pub check_grant : Site → Bool → ℕ → ℕ → Option ℕ → Result ApiError (Unit {0})
check_grant s is_admin owner_id node_id (some tid) = do
  guard (is_admin || tunnel_granted s.grants owner_id tid) (bad_request tunnel_not_granted)
  entry ←
      ok_or (first (λ h. h.ordinal == 0) (list_for_tunnel s.db tid)) (bad_request tunnel_missing)
  guard (entry.node_id == node_id) (bad_request not_entry_node)
check_grant s is_admin owner_id node_id none =
    guard (is_admin || node_granted s.grants owner_id node_id) (bad_request node_not_granted)

-- used >= limit
abbrev pub is_reached : Option ℤ → ℕ → Bool
is_reached none used = false
is_reached (some (pos limit)) used = leb limit used
is_reached (some (negsuc n)) used = true

abbrev pub owned : ℕ → DbRule → Bool
owned user_id r = r.user_id == user_id && not r.deleted

unfoldable pub rules_of : ℕ → List DbRule → ℕ
rules_of user_id rules = length (retain (owned user_id) rules)

unfoldable pub rules_in_tunnel : ℕ → ℕ → List DbRule → ℕ
rules_in_tunnel user_id tid rules =
    length (retain (λ r. owned user_id r && opt_is r.tunnel_id tid) rules)

unfoldable pub check_tunnel_quota : Site → ℕ → Option ℕ → Result ApiError (Unit {0})
check_tunnel_quota s owner_id none = ok tt
check_tunnel_quota s owner_id (some tid) =
    guard
      (not (
        is_reached (tunnel_grant_num s.grants owner_id tid)
          (rules_in_tunnel owner_id tid s.db.rules)))
      (bad_request tunnel_quota)

unfoldable pub check_profile : Site → Option ℤ → Result ApiError (Option ℕ)
check_profile s none = ok none
check_profile s (some (negsuc n)) = err (bad_request bad_profile)
check_profile s (some (pos zero)) = err (bad_request bad_profile)
check_profile s (some (pos (suc n))) = do
  guard (is_some (find_profile s.db (suc n))) (bad_request profile_missing)
  ok (some (suc n))

-- The row that is inserted: the other columns have the defaults of the table.
unfoldable pub new_row : CreateRuleRequest → ℕ → Option ℕ → ℕ → ℕ → DbRule
new_row req owner_id profile port id = record {
  id = id;
  user_id = owner_id;
  node_id = req.node_id;
  name = trim req.name;
  protocol = req.protocol;
  listen_ip = req.listen_ip;
  listen_port = port;
  target_host = trim req.target_host;
  target_port = req.target_port;
  enabled = true;
  bandwidth_profile_id = profile;
  bandwidth_mbps = none;
  tunnel_id = req.tunnel_id;
  max_connections = positive_only req.max_connections;
  extra_targets = none;
  lb_strategy = "fifo";
  send_proxy_protocol = false;
  remote_af = unwrap_or req.remote_af "auto";
  deleted = false;
}

-- The settings that are written after the row, where they differ from the defaults.
unfoldable pub write_settings : Db → ℕ → Option String × String → Bool → Db
write_settings db id (extra, strat) proxy =
    let targets =
      if is_some extra || not (str_eq strat "fifo")
      then (set_targets db id extra strat).0
      else db in
    if proxy then (set_send_proxy_protocol targets id true).0 else targets

-- What is left once the rule is admitted: the row is inserted, read back, logged and sent.
unfoldable pub finish : Formats → Site → AuthUser → ℕ → String → Result ApiError (Site × DbRule)
finish formats s auth id action = do
  rule ← ok_or (find_by_id s id) not_found
  ok (
    record s {
      audit = record_audit s auth action id;
      dispatcher = dispatch_rule_apply formats.targets_from_str s.db s.dispatcher rule;
    },
    rule,
  )

-- The second half of `create`: the quotas, the profile, the port, and the row.
unfoldable pub place_rule :
    Formats
    → Site
    → AuthUser
    → CreateRuleRequest
    → ℕ
    → Node
    → Option String × String
    → Result ApiError (Site × DbRule)
place_rule formats s auth req owner_id node targets = do
  owner ← ok_or (find_user s owner_id) (bad_request owner_missing)
  guard (not (is_reached owner.forward_rules_quota (rules_of owner_id s.db.rules)))
      (bad_request rules_quota)
  check_tunnel_quota s owner_id req.tunnel_id
  profile ← check_profile s req.bandwidth_profile_id
  port ←
      ok_or
        (choose_port s.db node req.listen_ip req.protocol
          (reserved_ports formats.ports_from_str s.reserved) req.listen_port (is_some req.tunnel_id)
          auth.is_admin)
        (bad_request port_refused)
  guard (ensure_no_protocol_conflict s.db.rules req.node_id req.listen_ip port req.protocol none)
      (bad_request protocol_conflict)
  db ←
      ok_or (insert_rule s.db (new_row req owner_id profile port s.db.next_rule_id))
        (bad_request duplicate)
  finish formats
      (record s {
        db = write_settings db s.db.next_rule_id targets (is_true req.send_proxy_protocol);
      })
      auth s.db.next_rule_id "rule.create"

unfoldable pub create :
    Formats → Site → AuthUser → CreateRuleRequest → Result ApiError (Site × DbRule)
create formats s auth req = do
  owner_id ← owner_of s auth req.user_id
  check_request formats auth.is_admin req
  targets ← validate_targets formats (unwrap_or req.extra_targets []) req.lb_strategy auth.is_admin
  node ← ok_or (find_node s.db req.node_id) (bad_request node_missing)
  check_grant s auth.is_admin owner_id req.node_id req.tunnel_id
  place_rule formats s auth req owner_id node targets
