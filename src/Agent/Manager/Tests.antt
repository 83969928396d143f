-- ===== src/Agent/Manager/Tests.antt =====
-- crates/node-agent/src/manager.rs: a node with one rule.
use emorelay.Base.{true, false, some, ◌≡◌, refl}
use emorelay.Base.Dict
use emorelay.Agent.Manager.{
  RuleManager, RuleHandles, new, apply, restart, drop_rule, start_task, start_rule, start_protocol,
  start_both,
}
use emorelay.Agent.Manager.Outcome.{rule_at, placed, apply-rule_at}
use emorelay.Agent.Sample.{web, relayed, starts, no_udp}

abbrev one : RuleManager
one = (apply starts new web).0

abbrev handles_of_web : RuleHandles
handles_of_web = record { rule = web; tcp = true; udp = true; tunnel = false }

web_runs : Dict.lookup 7 one.handles ≡ some handles_of_web
unfolding apply new drop_rule start_rule start_protocol start_both start_task
web_runs = refl

restart_fails : (restart no_udp one 7).1 ≡ false
unfolding restart apply new drop_rule start_rule start_protocol start_both start_task
restart_fails = refl

apply-rule_at_example :
    let (n, ok) = apply no_udp one relayed in rule_at n 9 ≡ placed relayed ok 9 (rule_at one 9)
apply-rule_at_example = apply-rule_at no_udp one relayed 9
