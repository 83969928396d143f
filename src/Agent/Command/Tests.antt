-- ===== src/Agent/Command/Tests.antt =====
-- crates/node-agent/src/agent.rs: a command on a node that runs nothing yet, and a replay.
use emorelay.Base.{◌≡◌, ◌≢◌, refl, subst, Option, none, some, List, [], ◌∷◌}
use emorelay.Proto.{Rule, Command, reconcile_rules, applied_rules}
use emorelay.Agent.Manager.{
  new, current_rules, apply, drop_rule, start_task, start_rule, start_protocol, start_both,
}
use emorelay.Agent.Manager.Outcome.{rule_at}
use emorelay.Agent.Store.{json_of_rule}
use emorelay.Agent.Command.{World, change_rules, handle_rules, handle_body, handle_command}
use emorelay.Agent.Command.Persist.{Persisted, ParsesAfter, handle_command-Persisted}
use emorelay.Agent.Command.Replay.{AllReplay, commands, latest, run_commands, replay-rule_at}
use emorelay.Agent.Sample.{web, fine, blank, to_vec, from_slice, apply_web}

web_parses : ParsesAfter to_vec from_slice (handle_command to_vec fine blank apply_web)
unfolding handle_command handle_body handle_rules change_rules current_rules new apply drop_rule
    start_rule start_protocol start_both start_task json_of_rule
web_parses = refl

handle_command-Persisted_example :
    Persisted to_vec from_slice fine.ending blank (handle_command to_vec fine blank apply_web)
handle_command-Persisted_example =
    handle_command-Persisted to_vec from_slice fine blank apply_web web_parses

sent : some web ≢ none
sent e = subst (λ (o : Option Rule). elim o [ none ↦ ⊥ | some r ↦ Unit ]) e tt

abbrev replay : List (World × Command)
replay = (fine, apply_web) ∷ []

replay-AllReplay : AllReplay replay
replay-AllReplay = ((sent, ((λ k r. refl), (λ r. refl))), tt)

replay-rule_at_example :
    let b = run_commands to_vec blank replay in
    let c =
      run_commands to_vec b ((fine, record { body = some (reconcile_rules (7 ∷ [])) }) ∷ []) in
    rule_at c.manager 7 ≡ latest (applied_rules (commands replay)) 7 none
replay-rule_at_example = replay-rule_at to_vec blank replay fine (7 ∷ []) 7 replay-AllReplay refl
