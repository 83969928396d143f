-- ===== src/Panel/Rules/Targets.antt =====
-- crates/panel-server/src/routes/rules.rs: the check of the extra targets and of the strategy.
use emorelay.Base.{
  ℕ, Bool, not, ◌||◌, Option, none, some, List, [], ◌∷◌, String, str_eq, ◌==◌, ltb, length,
  unwrap_or,
}
use emorelay.Base.Text.{trim}
use emorelay.Base.Result.{Result, ok, require, ◌>>◌}
use emorelay.Proto.{TargetEndpoint}
use emorelay.Panel.Util.{is_internal_target_ip}
use emorelay.Panel.Util.Host.{is_valid_target_host}
use emorelay.Panel.Rules.{
  Formats, ApiError, bad_request, bad_strategy, too_many_targets, bad_port, bad_target_host,
  internal_target,
}

abbrev pub is_strategy : String → Bool
is_strategy s = str_eq s "fifo" || (str_eq s "round" || (str_eq s "rand" || str_eq s "hash"))

abbrev pub max_extra_targets : ℕ
max_extra_targets = 32

-- The hosts as they are stored.
abbrev pub trim_hosts : List TargetEndpoint → List TargetEndpoint
trim_hosts [] = []
trim_hosts (t ∷ ts) = record { host = trim t.host; port = t.port } ∷ trim_hosts ts

module _ (formats : Formats) where
  abbrev pub target_checks : Bool → List TargetEndpoint → List (Bool × ApiError)
  target_checks is_admin [] = []
  target_checks is_admin (t ∷ ts) =
      (not (t.port == 0), bad_request bad_port)
      ∷ (is_valid_target_host formats.parse_ip (trim t.host), bad_request bad_target_host)
      ∷ (
        is_admin || not (is_internal_target_ip formats.parse_ip (trim t.host)),
        bad_request internal_target,
      )
      ∷ target_checks is_admin ts

  abbrev pub stored_targets : List TargetEndpoint → Option String
  stored_targets [] = none
  stored_targets (t ∷ ts) = some (formats.targets_to_string (trim_hosts (t ∷ ts)))

  unfoldable pub validate_targets :
      List TargetEndpoint → Option String → Bool → Result ApiError (Option String × String)
  validate_targets extra lb_strategy is_admin = do
    let strat = unwrap_or lb_strategy "fifo"
    require (
        (is_strategy strat, bad_request bad_strategy)
        ∷ (not (ltb max_extra_targets (length extra)), bad_request too_many_targets)
        ∷ target_checks is_admin extra)
    ok (stored_targets extra, strat)
