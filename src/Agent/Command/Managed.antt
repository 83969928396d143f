-- ===== src/Agent/Command/Managed.antt =====
-- No command breaks the manager's bookkeeping, and each leaves alone what it does not concern.
use emorelay.Base.{none, some, List, Bool-cases, Option-cases, inl, inr, ℕ}
use emorelay.Proto.{
  Body, Command, apply_rule, remove_rule, restart_rule, enable_rule, disable_rule, reconcile_rules,
  tunnel_credentials, revoke_tunnel_credentials, upgrade_agent, probe,
}
use emorelay.Agent.Manager.{RuleManager, Env}
use emorelay.Agent.Manager.Tasks.{IsManaged}
use emorelay.Agent.Manager.Upkeep.{
  apply-IsManaged, remove-IsManaged, restart-IsManaged, reconcile-IsManaged,
}
use emorelay.Agent.Store.{RuleJson}
use emorelay.Agent.Command.{World, Agent, change_rules, handle_rules, handle_body, handle_command}

change_rules-IsManaged :
    (env : Env) (m : RuleManager) (body : Body)
    → IsManaged m
    → IsManaged (change_rules env m body).0
unfolding change_rules
change_rules-IsManaged env m (apply_rule none) i = i
change_rules-IsManaged env m (apply_rule (some rule)) i = apply-IsManaged env m rule i
change_rules-IsManaged env m (remove_rule id) i = remove-IsManaged m id i
change_rules-IsManaged env m (restart_rule id) i = restart-IsManaged env m id i
change_rules-IsManaged env m (reconcile_rules ids) i = reconcile-IsManaged m ids i
change_rules-IsManaged env m (enable_rule id) i = i
change_rules-IsManaged env m (disable_rule id) i = i
change_rules-IsManaged env m (tunnel_credentials c) i = i
change_rules-IsManaged env m (revoke_tunnel_credentials id) i = i
change_rules-IsManaged env m (upgrade_agent u) i = i
change_rules-IsManaged env m (probe p) i = i

module _ (to_vec : List RuleJson → List ℕ) where
  handle_rules-IsManaged :
      (w : World) (a : Agent) (body : Body)
      → IsManaged a.manager
      → IsManaged (handle_rules to_vec w a body).0.manager
  unfolding handle_rules
  handle_rules-IsManaged w a body i = elim (Bool-cases (change_rules w.env a.manager body).1) [
    | inl e ↦ rw e (change_rules-IsManaged w.env a.manager body i)
    | inr e ↦ rw e (change_rules-IsManaged w.env a.manager body i)
  ]

  handle_body-IsManaged :
      (w : World) (a : Agent) (body : Body)
      → IsManaged a.manager
      → IsManaged (handle_body to_vec w a body).0.manager
  unfolding handle_body
  handle_body-IsManaged w a (apply_rule r) i = handle_rules-IsManaged w a (apply_rule r) i
  handle_body-IsManaged w a (remove_rule id) i = handle_rules-IsManaged w a (remove_rule id) i
  handle_body-IsManaged w a (restart_rule id) i = handle_rules-IsManaged w a (restart_rule id) i
  handle_body-IsManaged w a (reconcile_rules ids) i =
      handle_rules-IsManaged w a (reconcile_rules ids) i
  handle_body-IsManaged w a (enable_rule id) i = handle_rules-IsManaged w a (enable_rule id) i
  handle_body-IsManaged w a (disable_rule id) i = handle_rules-IsManaged w a (disable_rule id) i
  handle_body-IsManaged w a (tunnel_credentials c) i = i
  handle_body-IsManaged w a (revoke_tunnel_credentials id) i = i
  handle_body-IsManaged w a (upgrade_agent u) i = elim (Bool-cases a.upgrading) [
    | inl e ↦ rw e i
    | inr e ↦ rw e i
  ]
  handle_body-IsManaged w a (probe p) i = i

  pub handle_command-IsManaged :
      (w : World) (a : Agent) (cmd : Command)
      → IsManaged a.manager
      → IsManaged (handle_command to_vec w a cmd).0.manager
  unfolding handle_command
  handle_command-IsManaged w a cmd i = elim (Option-cases cmd.body) [
    | inl e ↦ rw (e, handle_command) i
    | inr (body, e) ↦ rw (e, handle_command) (handle_body-IsManaged w a body i)
  ]
