-- ===== src/Panel/Rules/Handlers.antt =====
-- crates/panel-server/src/routes/rules.rs: the other handlers that change something, and the requests
-- together. A handler that fails has changed nothing.
pub mod Cases
use emorelay.Base.{
  ℕ, Bool, true, false, not, Option, none, some, List, [], ◌∷◌, String, ◌==◌, if◌then◌else◌,
}
use emorelay.Base.Result.{Result, ok, err, guard, ok_or, after, ◌>>=◌, ◌>>◌}
use emorelay.Panel.Db.{Db, DbRule, find_rule, set_enabled, soft_delete_rule}
use emorelay.Panel.Dispatch.{
  dispatch_rule_apply, dispatch_rule_remove_to, dispatch_rule_restart, rule_target_nodes,
}
use emorelay.Panel.Rules.{
  Formats, ApiError, not_found, AuthUser, Site, find_by_id, record_audit, ensure_can_touch,
}
use emorelay.Panel.Rules.Create.{CreateRuleRequest}
use emorelay.Panel.Rules.Update.{UpdateRuleRequest}
use emorelay.Panel.Rules.Create
use emorelay.Panel.Rules.Update

-- What a handler answers: the rule, whether the commands were delivered, or the new switch.
pub data Reply : Type 0 where
  rule_view : DbRule → Reply
  dispatched : Bool → Reply
  enabled : Bool → Reply

-- The nodes are those of the rule before it is deleted.
unfoldable pub delete : Site → AuthUser → ℕ → Result ApiError (Site × Reply)
delete s auth id = do
  existing ← ok_or (find_rule s.db id) not_found
  ensure_can_touch auth existing
  let deleted = soft_delete_rule s.db id
  guard (not (deleted.1 == 0)) not_found
  let sent = dispatch_rule_remove_to s.dispatcher existing.id (rule_target_nodes s.db existing)
  ok (
    record s { db = deleted.0; audit = record_audit s auth "rule.delete" id; dispatcher = sent.0 },
    dispatched sent.1,
  )

unfoldable pub set_enabled_handler :
    Formats → Site → AuthUser → ℕ → Bool → String → Result ApiError (Site × Reply)
set_enabled_handler formats s auth id on action = do
  existing ← ok_or (find_rule s.db id) not_found
  ensure_can_touch auth existing
  let switched = set_enabled s.db id on
  guard (not (switched.1 == 0)) not_found
  let stored = record s { db = switched.0; audit = record_audit s auth action id }
  ok (
    record stored {
      dispatcher = elim (find_by_id stored id) [
        | none ↦ stored.dispatcher
        | some rule ↦ dispatch_rule_apply formats.targets_from_str stored.db stored.dispatcher rule
      ];
    },
    enabled on,
  )

unfoldable pub restart : Site → AuthUser → ℕ → Result ApiError (Site × Reply)
restart s auth id = do
  rule ← ok_or (find_rule s.db id) not_found
  ensure_can_touch auth rule
  let sent = dispatch_rule_restart s.db s.dispatcher rule
  ok (
    record s { audit = record_audit s auth "rule.restart" id; dispatcher = sent.0 },
    dispatched sent.1,
  )

-- The requests that change something, by the function of the router that serves them.
pub data Request : Type 0 where
  creates : CreateRuleRequest → Request
  updates : ℕ → UpdateRuleRequest → Request
  deletes enables disables restarts : ℕ → Request

unfoldable pub handle : Formats → Site → AuthUser → Request → Result ApiError (Site × Reply)
handle formats s auth (creates req) = do
  done ← Create.create formats s auth req
  ok (done.0, rule_view done.1)
handle formats s auth (updates id req) = do
  done ← Update.update formats s auth id req
  ok (done.0, rule_view done.1)
handle formats s auth (deletes id) = delete s auth id
handle formats s auth (enables id) = set_enabled_handler formats s auth id true "rule.enable"
handle formats s auth (disables id) = set_enabled_handler formats s auth id false "rule.disable"
handle formats s auth (restarts id) = restart s auth id

-- The site after a request, served or refused, and after a sequence of them.
unfoldable pub serve : Formats → Site → AuthUser → Request → Site
serve formats s auth req = after s (handle formats s auth req)

abbrev pub serve_all : Formats → Site → List (AuthUser × Request) → Site
serve_all formats s [] = s
serve_all formats s ((auth, req) ∷ reqs) = serve_all formats (serve formats s auth req) reqs
