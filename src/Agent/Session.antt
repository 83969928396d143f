-- ===== src/Agent/Session.antt =====
-- crates/node-agent/src/agent.rs, `run_agent` and `run_session`: one session's loop as the events that
-- it answers. The heartbeat and the reports of statistics do not touch this state.
pub mod Invariant
pub mod Retries
mod Tests
use emorelay.Base.{
  ℕ, suc, ◌-◌, Bool, true, false, Option, none, some, List, [], ◌∷◌, if◌then◌else◌, leb,
}
use emorelay.Proto.{Rule, Body, Command, probe, Probe}
use emorelay.Agent.Manager
use emorelay.Agent.Manager.{RuleManager}
use emorelay.Agent.Retry
use emorelay.Agent.Retry.{RetryQueue, PendingCommand}
use emorelay.Agent.Store.{RuleJson}
use emorelay.Agent.Command.{World, Agent, handle_command, upgrade_failed}

abbrev pub max_probe_inflight : ℕ
max_probe_inflight = 16

-- `probes` is PROBE_INFLIGHT; `session_over` once the loop has returned.
pub record Session : Type 0 where
  pub agent : Agent
  pub retry : RetryQueue
  pub probes : ℕ
  pub session_over : Bool

pub data Event : Type 0 where
  message : ℕ → World → Command → Event
  stream_ends : Event
  retry_tick : ℕ → (ℕ → World) → Event
  probe_ends : Event
  upgrade_ends : Event

abbrev pub is_probe : Command → Bool
is_probe c = elim c.body [ none ↦ false | some b ↦ elim b [ probe p ↦ true | _ ↦ false ] ]

-- The persisted rules are applied one after the other; one that fails is only logged.
pub apply_persisted : RuleManager → List (World × Rule) → RuleManager
apply_persisted m [] = m
apply_persisted m ((w, rule) ∷ rules) = apply_persisted (Manager.apply w.env m rule).0 rules

module _ (to_vec : List RuleJson → List ℕ) where
  pub retry_all :
      (ℕ → World) → ℕ → ℕ → Agent → RetryQueue → List PendingCommand → Agent × RetryQueue
  retry_all worlds i now a q [] = (a, q)
  retry_all worlds i now a q (p ∷ ps) =
      let (a', ok) = handle_command to_vec (worlds i) a p.cmd in
      let q' = if ok then q else (Retry.push_failed q p.cmd p.attempts now).0 in
      retry_all worlds (suc i) now a' q' ps

  -- A probe is started, unless sixteen run; any other command takes the place of the retries of its
  -- rule and is handled, and waits for a retry if it fails.
  pub on_message : Session → ℕ → World → Command → Session
  on_message s now w cmd =
      let q = Retry.supersede s.retry cmd in
      let (a, ok) = handle_command to_vec w s.agent cmd in
      if is_probe cmd
      then (if leb max_probe_inflight s.probes then s else record s { probes = suc s.probes })
      else (if ok
          then record s { agent = a; retry = q }
          else record s { agent = a; retry = (Retry.push_failed q cmd 0 now).0 })

  pub on_retry_tick : Session → ℕ → (ℕ → World) → Session
  unfolding retry_all
  on_retry_tick s now worlds =
      let (q, due) = Retry.take_due s.retry now in
      let (a, q') = retry_all worlds 0 now s.agent q due in record s { agent = a; retry = q' }

  pub step : Session → Event → Session
  unfolding on_message on_retry_tick
  step s (message now w cmd) = on_message s now w cmd
  step s stream_ends = record s { session_over = true }
  step s (retry_tick now worlds) = on_retry_tick s now worlds
  step s probe_ends = record s { probes = s.probes - 1 }
  step s upgrade_ends = record s { agent = upgrade_failed s.agent }

  -- A new session has an empty queue; the agent and the probes that run go on.
  pub connect : Session → Session
  connect s = record s { retry = Retry.new; session_over = false }

  -- Events after the session is over go to the next one.
  pub run : Session → List Event → Session
  unfolding step connect
  run s [] = s
  run s (e ∷ es) = run (step (if s.session_over then connect s else s) e) es
