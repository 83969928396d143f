-- ===== src/Agent/Command.antt =====
-- crates/node-agent/src/agent.rs: how a node handles a command and runs a session. What the operating
-- system answers enters as an argument of each call.
pub mod Replay
pub mod Managed
pub mod Persist
mod Tests
use emorelay.Base.{ℕ, Bool, true, false, not, Option, none, some, List, [], ◌∷◌, if◌then◌else◌}
use emorelay.Proto.{
  Rule, Body, Command, apply_rule, remove_rule, restart_rule, enable_rule, disable_rule,
  reconcile_rules, tunnel_credentials, revoke_tunnel_credentials, upgrade_agent, probe,
  UpgradeAgent,
}
use emorelay.Agent.Creds
use emorelay.Agent.Creds.{Files, Writes, Removal}
use emorelay.Agent.Manager
use emorelay.Agent.Manager.{RuleManager, Env}
use emorelay.Agent.Store
use emorelay.Agent.Store.{RuleJson, Disk, Ending}

-- What one command meets: the listeners' starts, the state file, and the credential files.
pub record World : Type 0 where
  pub env : Env
  pub ending : Ending
  pub writes : Writes
  pub removal : Removal

-- `upgrading` is the flag UPGRADING; `upgrades` the upgrades that were set off, newest first.
pub record Agent : Type 0 where
  pub manager : RuleManager
  pub disk : Disk
  pub creds : Files
  pub upgrading : Bool
  pub upgrades : List UpgradeAgent

-- The part under the manager's lock. The other kinds of command never come here.
pub change_rules : Env → RuleManager → Body → RuleManager × Bool
change_rules env m (apply_rule none) = (m, true)
change_rules env m (apply_rule (some rule)) = Manager.apply env m rule
change_rules env m (remove_rule id) = (Manager.remove m id, true)
change_rules env m (restart_rule id) = Manager.restart env m id
change_rules env m (reconcile_rules ids) = ((Manager.reconcile m ids).0, true)
change_rules env m _ = (m, true)

module _ (to_vec : List RuleJson → List ℕ) where
  -- An error of the manager returns before the state is saved; an error of the save is only logged.
  handle_rules : World → Agent → Body → Agent × Bool
  handle_rules w a body =
      let (m, ok) = change_rules w.env a.manager body in
      if ok
      then (
        record a {
          manager = m;
          disk = (Store.save to_vec a.disk (Manager.current_rules m) w.ending).0;
        },
        true,
      )
      else (record a { manager = m }, false)

  handle_body : World → Agent → Body → Agent × Bool
  unfolding handle_rules
  handle_body w a (upgrade_agent u) =
      if a.upgrading
      then (a, true)
      else (record a { upgrading = true; upgrades = u ∷ a.upgrades }, true)
  handle_body w a (tunnel_credentials c) =
      (record a { creds = (Creds.store a.creds c w.writes).0 }, true)
  handle_body w a (revoke_tunnel_credentials id) =
      (record a { creds = (Creds.remove_tunnel a.creds id w.removal).0 }, true)
  handle_body w a (probe p) = (a, true)
  handle_body w a body = handle_rules w a body

  -- The flag is false for an error.
  pub handle_command : World → Agent → Command → Agent × Bool
  unfolding handle_body
  handle_command w a cmd = elim cmd.body [ none ↦ (a, true) | some body ↦ handle_body w a body ]

-- `UPGRADING.store(false)` at the end of an upgrade that failed.
abbrev pub upgrade_failed : Agent → Agent
upgrade_failed a = record a { upgrading = false }
