-- ===== src/Panel/Rules.antt =====
-- crates/panel-server/src/routes/rules.rs: what the handlers of the rules work on. A request runs alone: the
-- locks that keep a dispatch apart from a reconciliation are in Dispatcher. The database answers every
-- query; the time stamps, the counters of traffic and the addresses of the callers are left out.
pub mod Targets
pub mod Create
pub mod Update
pub mod Handlers
pub mod Writes
pub mod Operations
pub mod Refine
pub mod Owners
pub mod Quota
pub mod Public
pub mod Grant
pub mod Deliver
pub mod Removal
pub mod Managed
pub mod Sample
mod Tests
use emorelay.Base.{
  ℕ, Bool, true, false, not, ◌&&◌, Option, none, some, List, [], ◌∷◌, ◌++◌, String, ◌==◌,
}
use emorelay.Base.Signed.{ℤ}
use emorelay.Base.Ip.{IpAddr}
use emorelay.Base.Result.{Result, guard, ok, err}
use emorelay.Proto.{TargetEndpoint}
use emorelay.Panel.Db.{Db, DbRule, first, find_rule, with_columns}
use emorelay.Panel.Settings.{Setting}
use emorelay.Panel.Grants.{Grants}
use emorelay.Panel.Dispatcher.{CommandDispatcher}

-- The parsers and the printer of the libraries that the handlers call.
pub record Formats : Type 0 where
  pub parse_ip : String → Option IpAddr
  pub targets_from_str : String → Option (List TargetEndpoint)
  pub targets_to_string : List TargetEndpoint → String
  pub ports_from_str : String → Option (List ℤ)

-- The messages of a bad request.
pub data Reason : Type 0 where
  owner_not_self owner_missing admin_only proxy_on_tunnel bad_remote_af : Reason
  negative_connections empty_name bad_protocol bad_port bad_listen_ip : Reason
  bad_target_host internal_target tunnel_extra_targets bad_strategy too_many_targets : Reason
  node_missing tunnel_not_granted tunnel_missing not_entry_node node_not_granted : Reason
  rules_quota tunnel_quota bad_profile profile_missing port_refused : Reason
  protocol_conflict duplicate grant_revoked : Reason

pub data ApiError : Type 0 where
  bad_request : Reason → ApiError
  not_found : ApiError

pub record AuthUser : Type 0 where
  pub sub : ℕ
  pub is_admin : Bool

-- Instants are in seconds.
pub record User : Type 0 where
  pub id : ℕ
  pub expires_at : Option ℕ
  pub traffic_limit_bytes_30d : Option ℤ
  pub period_used_bytes_cached : ℕ
  pub quota_reset_day : Option ℤ
  pub forward_rules_quota : Option ℤ
  pub deleted : Bool

pub record AuditEntry : Type 0 where
  pub actor_user_id : Option ℕ
  pub action : String
  pub target_id : ℕ

pub record Site : Type 0 where
  pub db : Db
  pub users : List User
  pub grants : Grants
  pub reserved : Setting
  pub dispatcher : CommandDispatcher
  pub audit : List AuditEntry

abbrev pub find_user : Site → ℕ → Option User
find_user s id = first (λ u. u.id == id && not u.deleted) s.users

-- `Rule::find_by_id`
abbrev pub find_by_id : Site → ℕ → Option DbRule
find_by_id s id = elim (find_rule s.db id) [ none ↦ none | some r ↦ some (with_columns s.db r) ]

-- `audit::record_with_ip`
abbrev pub record_audit : Site → AuthUser → String → ℕ → List AuditEntry
record_audit s auth action id =
    s.audit ++ (record { actor_user_id = some auth.sub; action = action; target_id = id } ∷ [])

-- A rule of another user is answered as if it did not exist.
abbrev pub can_touch : AuthUser → DbRule → Bool
can_touch auth r = elim auth.is_admin [ true ↦ true | false ↦ r.user_id == auth.sub ]

unfoldable pub ensure_can_touch : AuthUser → DbRule → Result ApiError (Unit {0})
ensure_can_touch auth r = guard (can_touch auth r) not_found
