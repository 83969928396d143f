-- ===== src/Agent/Session/Tests.antt =====
-- crates/node-agent/src/agent.rs: a node that fails to apply a rule, retries, and connects again.
use emorelay.Base.{false, some, List, [], ◌∷◌, ◌≡◌, refl, if◌then◌else◌, ◌+◌}
use emorelay.Agent.Manager
use emorelay.Agent.Retry
use emorelay.Agent.Retry.{rule_id_of, body_rule_id, retry_delay}
use emorelay.Agent.Retry.Due.{of_rule}
use emorelay.Agent.Command.{Agent, handle_command}
use emorelay.Agent.Session.{
  Event, message, stream_ends, retry_tick, probe_ends, upgrade_ends, on_message, run,
  apply_persisted,
}
use emorelay.Agent.Session.Invariant.{IsLive, life-IsLive}
use emorelay.Agent.Session.Retries.{on_message-retries}
use emorelay.Agent.Sample.{web, fine, poor, blank, idle, to_vec, apply_web, restart_web}

abbrev loaded : Agent
loaded = record blank { manager = apply_persisted Manager.new ((fine, web) ∷ []) }

abbrev day : List Event
day =
    message 0 poor apply_web
    ∷ retry_tick 30 (λ i. fine)
    ∷ stream_ends
    ∷ message 40 fine restart_web
    ∷ probe_ends
    ∷ upgrade_ends
    ∷ []

life-IsLive_example : IsLive (
    run to_vec (record { agent = loaded; retry = Retry.new; probes = 0; session_over = false }) day)
life-IsLive_example = life-IsLive to_vec loaded ((fine, web) ∷ []) day refl

about_web : rule_id_of apply_web ≡ some 7
unfolding rule_id_of body_rule_id
about_web = refl

on_message-retries_example : of_rule 7 (on_message to_vec idle 5 poor apply_web).retry.items ≡ (
    if (handle_command to_vec poor blank apply_web).1
    then []
    else record { cmd = apply_web; due = 5 + retry_delay; attempts = 1 } ∷ [])
on_message-retries_example = on_message-retries to_vec idle 5 poor apply_web 7 about_web refl
