-- ===== src/Panel/Rules/Update.antt =====
-- crates/panel-server/src/routes/rules.rs: the handler `update`.
pub mod Admission
use emorelay.Base.{
  ℕ, zero, suc, Bool, true, false, not, ◌&&◌, ◌||◌, Option, none, some, List, [], ◌∷◌, String, ◌==◌,
  ltb, contains, unwrap_or, is_some, if◌then◌else◌,
}
use emorelay.Base.Signed.{ℤ, pos, negsuc}
use emorelay.Base.Text.{trim, is_empty}
use emorelay.Base.Result.{Result, ok, err, guard, require, ok_or, ◌>>=◌, ◌>>◌}
use emorelay.Proto.{TargetEndpoint}
use emorelay.Panel.Db.{
  Db, DbRule, Node, Fields, with_fields, update_rule, coalesce, first, find_rule, find_node,
  set_targets, set_send_proxy_protocol, set_remote_af, opt_is, find_profile,
}
use emorelay.Panel.Util.{is_valid_ip, is_internal_target_ip}
use emorelay.Panel.Util.Host.{is_valid_target_host}
use emorelay.Panel.Settings.{reserved_ports}
use emorelay.Panel.Grants.{node_granted, tunnel_granted}
use emorelay.Panel.Ports.{ensure_no_protocol_conflict, is_unique}
use emorelay.Panel.Rules.{
  Formats, Reason, admin_only, proxy_on_tunnel, bad_remote_af, negative_connections, empty_name,
  bad_port, bad_listen_ip, bad_target_host, internal_target, tunnel_extra_targets, bad_profile,
  profile_missing, port_refused, protocol_conflict, duplicate, grant_revoked, ApiError, bad_request,
  not_found, AuthUser, Site, ensure_can_touch,
}
use emorelay.Panel.Rules.Targets.{validate_targets}
use emorelay.Panel.Rules.Create.{is_true, is_negative, is_remote_af, finish}

pub record UpdateRuleRequest : Type 0 where
  pub name : Option String
  pub listen_ip : Option String
  pub listen_port : Option ℕ
  pub target_host : Option String
  pub target_port : Option ℕ
  pub bandwidth_profile_id : Option ℤ
  pub max_connections : Option ℤ
  pub extra_targets : Option (List TargetEndpoint)
  pub lb_strategy : Option String
  pub send_proxy_protocol : Option Bool
  pub remote_af : Option String

abbrev pub redirecting : UpdateRuleRequest → Bool
redirecting req =
    is_some req.target_host
    || (is_some req.target_port
        || (is_some req.listen_ip || (is_some req.listen_port || is_some req.extra_targets)))

abbrev pub still_granted : Site → DbRule → Bool
still_granted s r = elim r.tunnel_id [
  | some tid ↦ tunnel_granted s.grants r.user_id tid
  | none ↦ node_granted s.grants r.user_id r.node_id
]

-- A test of a field that the request may leave out.
abbrev pub holds_for {ℓ} : {A : Type ℓ} → (A → Bool) → Option A → Bool
holds_for p none = true
holds_for p (some a) = p a

abbrev pub trim_opt : Option String → Option String
trim_opt none = none
trim_opt (some s) = some (trim s)

-- The checks of the request against the rule it changes.
abbrev pub change_checks : Formats → Bool → DbRule → UpdateRuleRequest → List (Bool × ApiError)
change_checks formats is_admin existing req =
    (holds_for (λ n. not (is_empty (trim n))) req.name, bad_request empty_name)
    ∷ (holds_for (is_valid_ip formats.parse_ip) req.listen_ip, bad_request bad_listen_ip)
    ∷ (
      holds_for (λ h. is_valid_target_host formats.parse_ip (trim h)) req.target_host,
      bad_request bad_target_host,
    )
    ∷ (
      is_admin
          || holds_for (λ h. not (is_internal_target_ip formats.parse_ip (trim h))) req.target_host,
      bad_request internal_target,
    )
    ∷ (not (opt_is req.listen_port 0 || opt_is req.target_port 0), bad_request bad_port)
    ∷ (is_admin || not (is_some req.max_connections), bad_request admin_only)
    ∷ (is_admin || not (is_some req.send_proxy_protocol), bad_request admin_only)
    ∷ (
      not (is_true req.send_proxy_protocol && is_some existing.tunnel_id),
      bad_request proxy_on_tunnel,
    )
    ∷ (holds_for is_remote_af req.remote_af, bad_request bad_remote_af)
    ∷ (not (is_negative req.max_connections), bad_request negative_connections)
    ∷ []

unfoldable pub check_change :
    Formats → Bool → DbRule → UpdateRuleRequest → Result ApiError (Unit {0})
check_change formats is_admin existing req = require (change_checks formats is_admin existing req)

-- 0 takes the profile away.
unfoldable pub check_profile_change : Site → Bool → Option ℤ → Result ApiError (Option ℕ)
check_profile_change s is_admin none = ok none
check_profile_change s false (some pid) = err (bad_request admin_only)
check_profile_change s true (some (negsuc n)) = err (bad_request bad_profile)
check_profile_change s true (some (pos zero)) = ok (some zero)
check_profile_change s true (some (pos (suc n))) = do
  guard (is_some (find_profile s.db (suc n))) (bad_request profile_missing)
  ok (some (suc n))

-- The new targets and strategy. A request that only names the strategy counts as one without targets.
abbrev pub new_targets :
    Formats → Bool → DbRule → UpdateRuleRequest → Result ApiError (Option (Option String × String))
new_targets formats is_admin existing req = do
  guard
      (not (
        is_some existing.tunnel_id && is_some (first (λ t. true) (unwrap_or req.extra_targets []))))
      (bad_request tunnel_extra_targets)
  targets ←
      validate_targets formats (unwrap_or req.extra_targets [])
        (some (unwrap_or req.lb_strategy existing.lb_strategy)) is_admin
  ok (some targets)

unfoldable pub check_targets :
    Formats → Bool → DbRule → UpdateRuleRequest → Result ApiError (Option (Option String × String))
check_targets formats is_admin existing req =
    if is_some req.extra_targets || is_some req.lb_strategy
    then new_targets formats is_admin existing req
    else ok none

unfoldable pub fields_of : UpdateRuleRequest → Option ℕ → Fields
fields_of req profile = record {
  name = trim_opt req.name;
  listen_ip = req.listen_ip;
  listen_port = req.listen_port;
  target_host = trim_opt req.target_host;
  target_port = req.target_port;
  bandwidth_profile_id = profile;
  max_connections = req.max_connections;
}

-- The pool of the node and the reserved ports bind every update, the administrator's too.
unfoldable pub in_pool : Node → ℕ → Bool
in_pool node port = not (ltb port node.port_pool_min || ltb node.port_pool_max port)

abbrev pub write_targets : Db → ℕ → Option (Option String × String) → Db
write_targets db id none = db
write_targets db id (some (extra, strat)) = (set_targets db id extra strat).0

abbrev pub write_proxy : Db → ℕ → Option Bool → Db
write_proxy db id none = db
write_proxy db id (some b) = (set_send_proxy_protocol db id b).0

abbrev pub write_remote_af : Db → ℕ → Option String → Db
write_remote_af db id none = db
write_remote_af db id (some af) = (set_remote_af db id af).0

-- What is written besides the fields, each by an update of its own.
unfoldable pub write_changes : Db → ℕ → UpdateRuleRequest → Option (Option String × String) → Db
write_changes db id req targets =
    write_remote_af (write_proxy (write_targets db id targets) id req.send_proxy_protocol) id
      req.remote_af

unfoldable pub update :
    Formats → Site → AuthUser → ℕ → UpdateRuleRequest → Result ApiError (Site × DbRule)
update formats s auth id req = do
  existing ← ok_or (find_rule s.db id) not_found
  ensure_can_touch auth existing
  guard (auth.is_admin || (not (redirecting req) || still_granted s existing))
      (bad_request grant_revoked)
  check_change formats auth.is_admin existing req
  profile ← check_profile_change s auth.is_admin req.bandwidth_profile_id
  let port = coalesce req.listen_port existing.listen_port
  let ip = coalesce req.listen_ip existing.listen_ip
  node ← ok_or (find_node s.db existing.node_id) not_found
  guard (in_pool node port) (bad_request port_refused)
  guard (not (contains (reserved_ports formats.ports_from_str s.reserved) port))
      (bad_request port_refused)
  guard
      (ensure_no_protocol_conflict s.db.rules existing.node_id ip port existing.protocol (some id))
      (bad_request protocol_conflict)
  targets ← check_targets formats auth.is_admin existing req
  guard (is_unique s.db.rules (with_fields (fields_of req profile) existing))
      (bad_request duplicate)
  let written = update_rule (with_fields (fields_of req profile)) s.db id
  guard (not (written.1 == 0)) not_found
  finish formats (record s { db = write_changes written.0 id req targets }) auth id "rule.update"
