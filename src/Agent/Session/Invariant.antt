-- ===== src/Agent/Session/Invariant.antt =====
-- What holds at every moment of a node's life.
use emorelay.Base.{
  ℕ, suc, ◌≤◌, ◌≡◌, subst, sym, Bool, true, false, List, [], ◌∷◌, if◌then◌else◌, leb, arith,
  Bool-cases, inl, inr,
}
use emorelay.Proto.{Rule, Command}
use emorelay.Agent.Manager
use emorelay.Agent.Manager.{RuleManager}
use emorelay.Agent.Manager.Tasks.{IsManaged}
use emorelay.Agent.Manager.Upkeep.{apply-IsManaged, new-IsManaged}
use emorelay.Agent.Retry
use emorelay.Agent.Retry.{RetryQueue, PendingCommand}
use emorelay.Agent.Retry.Queue.{
  IsQueue, push_failed-IsQueue, supersede-IsQueue, take_due-IsQueue, new-IsQueue,
}
use emorelay.Agent.Store.{RuleJson}
use emorelay.Agent.Command.{World, Agent, handle_command}
use emorelay.Agent.Command.Managed.{handle_command-IsManaged}
use emorelay.Agent.Session.{
  Session, Event, message, stream_ends, retry_tick, probe_ends, upgrade_ends, max_probe_inflight,
  retry_all, on_message, on_retry_tick, step, connect, run, is_probe, apply_persisted,
}

pub record IsLive (s : Session) : Type 0 where
  pub managed : IsManaged s.agent.manager
  pub queue : IsQueue s.retry
  pub probes : s.probes ≤ max_probe_inflight

apply_persisted-IsManaged :
    (m : RuleManager) (rules : List (World × Rule))
    → IsManaged m
    → IsManaged (apply_persisted m rules)
unfolding apply_persisted
apply_persisted-IsManaged m [] i = i
apply_persisted-IsManaged m ((w, rule) ∷ rules) i =
    apply_persisted-IsManaged (Manager.apply w.env m rule).0 rules (apply-IsManaged w.env m rule i)

module _ (to_vec : List RuleJson → List ℕ) where
  retry_all-IsLive :
      (worlds : ℕ → World) (i now : ℕ) (a : Agent) (q : RetryQueue) (ps : List PendingCommand)
      → IsManaged a.manager
      → IsQueue q
      → let (b, r) = retry_all to_vec worlds i now a q ps in IsManaged b.manager × IsQueue r
  unfolding retry_all
  retry_all-IsLive worlds i now a q [] m v = (m, v)
  retry_all-IsLive worlds i now a q (p ∷ ps) m v =
      let (b, ok) = handle_command to_vec (worlds i) a p.cmd in
      let r = if ok then q else (Retry.push_failed q p.cmd p.attempts now).0 in
      retry_all-IsLive worlds (suc i) now b r ps
        (handle_command-IsManaged to_vec (worlds i) a p.cmd m)
        (elim (Bool-cases ok) [
          | inl e ↦ rw e v
          | inr e ↦ rw e (push_failed-IsQueue q p.cmd p.attempts now v)
        ])

  on_message-IsLive :
      (s : Session) (now : ℕ) (w : World) (cmd : Command)
      → IsLive s
      → IsLive (on_message to_vec s now w cmd)
  unfolding on_message
  on_message-IsLive s now w cmd v = elim (Bool-cases (is_probe cmd)) [
    | inl e ↦ elim (Bool-cases (leb max_probe_inflight s.probes)) [
      | inl f ↦ rw (e, f) v
      | inr f ↦
          rw (e, f) (record { managed = v.managed; queue = v.queue; probes = ground (arith, f) })
    ]
    | inr e ↦
        let m = handle_command-IsManaged to_vec w s.agent cmd v.managed in
        let q = supersede-IsQueue s.retry cmd v.queue in
        elim (Bool-cases (handle_command to_vec w s.agent cmd).1) [
          | inl f ↦ rw (e, f) (record { managed = m; queue = q; probes = v.probes })
          | inr f ↦
              rw (e, f)
                (record {
                  managed = m;
                  queue = push_failed-IsQueue (Retry.supersede s.retry cmd) cmd 0 now q;
                  probes = v.probes;
                })
        ]
  ]

  step-IsLive : (s : Session) (e : Event) → IsLive s → IsLive (step to_vec s e)
  unfolding step on_retry_tick
  step-IsLive s (message now w cmd) v = on_message-IsLive s now w cmd v
  step-IsLive s stream_ends v = record { managed = v.managed; queue = v.queue; probes = v.probes }
  step-IsLive s (retry_tick now worlds) v =
      let (q, due) = Retry.take_due s.retry now in
      let (m, r) =
        retry_all-IsLive worlds 0 now s.agent q due v.managed
          (take_due-IsQueue s.retry now v.queue) in
      record { managed = m; queue = r; probes = v.probes }
  step-IsLive s probe_ends v = record {
    managed = v.managed;
    queue = v.queue;
    probes = omega (arith, v.probes);
  }
  step-IsLive s upgrade_ends v = record { managed = v.managed; queue = v.queue; probes = v.probes }

  connect-IsLive : (s : Session) → IsLive s → IsLive (connect to_vec s)
  unfolding connect
  connect-IsLive s v = record { managed = v.managed; queue = new-IsQueue; probes = v.probes }

  current-IsLive : (b : Bool) (s : Session) → IsLive s → IsLive (if b then connect to_vec s else s)
  current-IsLive true s v = connect-IsLive s v
  current-IsLive false s v = v

  run-IsLive : (s : Session) (es : List Event) → IsLive s → IsLive (run to_vec s es)
  unfolding run
  run-IsLive s [] v = v
  run-IsLive s (e ∷ es) v =
      let n = if s.session_over then connect to_vec s else s in
      run-IsLive (step to_vec n e) es (step-IsLive n e (current-IsLive s.session_over s v))

  -- A node that starts with any persisted rules, and then goes through any commands, retries, ends
  -- of probes and of upgrades, and reconnections, whatever the system answers: at every moment the
  -- listeners that run are exactly those that the manager has handles for, each rule at most once;
  -- each rule has at most one retry waiting, which failed fewer than five times; and at most sixteen
  -- probes run.
  pub life-IsLive :
      (a : Agent) (rules : List (World × Rule)) (es : List Event)
      → a.manager ≡ apply_persisted Manager.new rules
      → IsLive (
          run to_vec (record { agent = a; retry = Retry.new; probes = 0; session_over = false }) es)
  life-IsLive a rules es started =
      run-IsLive (record { agent = a; retry = Retry.new; probes = 0; session_over = false }) es
        (record {
          managed =
              subst IsManaged (sym started)
                (apply_persisted-IsManaged Manager.new rules new-IsManaged);
          queue = new-IsQueue;
          probes = omega arith;
        })
