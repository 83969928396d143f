-- ===== src/Panel/Dispatch/Tests.antt =====
-- crates/panel-server/src/grpc/tunnel_dispatch.rs: the commands for a node of a small table.
use emorelay.Base.{◌≡◌, refl, none, List, [], ◌∷◌}
use emorelay.Proto.{Command, applied_rules}
use emorelay.Agent.Manager.Outcome.{rule_at}
use emorelay.Agent.Command.Replay.{latest, run_commands}
use emorelay.Agent.Sample.{fine, blank, to_vec}
use emorelay.Panel.Dispatch.{
  reconcile_commands_for_node, reconcile_rules_command, authoritative_rule_ids,
  node_block_protocols,
}
use emorelay.Panel.Dispatch.Reconcile.{meets, reconcile_commands_for_node-rule_at}
use emorelay.Panel.Dispatch.Delivery.{AllKept, reconcile-AllKept}
use emorelay.Panel.Db.{list_active_for_node}
use emorelay.Panel.Sample.{db, from_str, issue}

abbrev cmds : List Command
cmds = reconcile_commands_for_node from_str issue db 1

reconcile_commands_for_node-rule_at_example :
    let b = run_commands to_vec blank (meets (λ i. fine) 0 cmds) in
    rule_at
      (run_commands to_vec b
        ((fine, reconcile_rules_command (authoritative_rule_ids cmds)) ∷ [])).manager
      9
    ≡ latest (applied_rules cmds) 9 none
reconcile_commands_for_node-rule_at_example =
    reconcile_commands_for_node-rule_at (λ i. fine) (λ i. ((λ k r. refl), (λ r. refl))) from_str
      issue to_vec db 1 blank fine 9

reconcile-AllKept_example :
    AllKept from_str
      (list_active_for_node db 1)
      (node_block_protocols db 1)
      (reconcile_commands_for_node from_str issue db 1)
reconcile-AllKept_example = reconcile-AllKept from_str issue db 1
