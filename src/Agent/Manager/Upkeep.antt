-- ===== src/Agent/Manager/Upkeep.antt =====
-- Every call on the manager keeps the tasks and the map in step.
use emorelay.Base.{
  ℕ, ◌≡◌, refl, not, none, List, [], ◌∷◌, contains, retain, arith, Option-cases, Bool-cases, inl,
  inr,
}
use emorelay.Base.Dict
use emorelay.Proto.{Rule}
use emorelay.Agent.Stats
use emorelay.Agent.Stats.{StatsCollector}
use emorelay.Agent.Manager.{
  tunnel, Env, RuleManager, new, drop_rule, start_rule, apply, remove, drop_rules, reconcile,
  restart,
}
use emorelay.Agent.Manager.Tasks.{
  IsManaged, drop_rule-lookup, drop_rule-IsManaged, counted-IsManaged, start_one-IsManaged,
  start_protocol-IsManaged,
}

start_rule-IsManaged :
    (env : Env) (m : RuleManager) (rule : Rule)
    → IsManaged m
    → Dict.lookup rule.id m.handles ≡ none
    → IsManaged (start_rule env m rule).0
unfolding start_rule
start_rule-IsManaged env m rule i absent = elim (Bool-cases rule.enabled) [
  | inr off ↦ rw off i
  | inl on ↦ elim (Option-cases rule.tunnel) [
    | inl e ↦ rw (on, e) (start_protocol-IsManaged env m rule i absent on (rw e))
    | inr (ctx, e) ↦ elim (Bool-cases (env.make_transport rule)) [
      | inl t ↦ rw (on, e, t) (start_one-IsManaged env m rule i absent on tunnel (λ k. rw e))
      | inr t ↦ rw (on, e, t) i
    ]
  ]
]

pub drop_rule-absent : (m : RuleManager) (id : ℕ) → Dict.lookup id (drop_rule m id).handles ≡ none
drop_rule-absent m id = ground (arith, drop_rule-lookup m id id)

pub apply-IsManaged :
    (env : Env) (m : RuleManager) (rule : Rule) → IsManaged m → IsManaged (apply env m rule).0
unfolding apply
apply-IsManaged env m rule i =
    start_rule-IsManaged env (drop_rule m rule.id) rule (drop_rule-IsManaged m rule.id i)
      (drop_rule-absent m rule.id)

pub remove-IsManaged : (m : RuleManager) (id : ℕ) → IsManaged m → IsManaged (remove m id)
unfolding remove
remove-IsManaged m id i =
    counted-IsManaged (drop_rule m id) (Stats.remove (drop_rule m id).stats id)
      (drop_rule-IsManaged m id i)

drop_rules-IsManaged : (m : RuleManager) (ids : List ℕ) → IsManaged m → IsManaged (drop_rules m ids)
unfolding drop_rules
drop_rules-IsManaged m [] i = i
drop_rules-IsManaged m (id ∷ ids) i =
    drop_rules-IsManaged (drop_rule m id) ids (drop_rule-IsManaged m id i)

pub reconcile-IsManaged :
    (m : RuleManager) (keep_ids : List ℕ) → IsManaged m → IsManaged (reconcile m keep_ids).0
unfolding reconcile
reconcile-IsManaged m keep_ids i =
    let orphans = retain (λ id. not (contains keep_ids id)) (Dict.keys m.handles) in
    let m' = drop_rules m orphans in
    counted-IsManaged m' (Stats.retain m'.stats keep_ids) (drop_rules-IsManaged m orphans i)

pub restart-IsManaged :
    (env : Env) (m : RuleManager) (id : ℕ) → IsManaged m → IsManaged (restart env m id).0
unfolding restart
restart-IsManaged env m id i = elim (Option-cases (Dict.lookup id m.handles)) [
  | inl e ↦ rw (e, restart) i
  | inr (h, e) ↦
      rw (e, restart) (apply-IsManaged env (drop_rule m id) h.rule (drop_rule-IsManaged m id i))
]

-- A call on the manager.
pub data Call : Type 0 where
  applies : Env → Rule → Call
  removes : ℕ → Call
  reconciles : List ℕ → Call
  restarts : Env → ℕ → Call

abbrev pub step : RuleManager → Call → RuleManager
step m (applies env rule) = (apply env m rule).0
step m (removes id) = remove m id
step m (reconciles keep_ids) = (reconcile m keep_ids).0
step m (restarts env id) = (restart env m id).0

abbrev pub run : RuleManager → List Call → RuleManager
run m [] = m
run m (c ∷ cs) = run (step m c) cs

step-IsManaged : (m : RuleManager) (c : Call) → IsManaged m → IsManaged (step m c)
step-IsManaged m (applies env rule) i = apply-IsManaged env m rule i
step-IsManaged m (removes id) i = remove-IsManaged m id i
step-IsManaged m (reconciles keep_ids) i = reconcile-IsManaged m keep_ids i
step-IsManaged m (restarts env id) i = restart-IsManaged env m id i

run_from-IsManaged : (m : RuleManager) (cs : List Call) → IsManaged m → IsManaged (run m cs)
run_from-IsManaged m [] i = i
run_from-IsManaged m (c ∷ cs) i = run_from-IsManaged (step m c) cs (step-IsManaged m c i)

pub new-IsManaged : IsManaged new
unfolding new
new-IsManaged = record { is_map = tt; filed = λ id. tt; tasks = λ id k. refl }

-- After any calls, whatever starts and whatever does not: the map holds each rule once, under its
-- own id, enabled and with just the listeners that it asks for, and the tasks that run are exactly
-- the listeners of the map. So no task is left behind by an update, a removal or a failed start.
pub run-IsManaged : (cs : List Call) → IsManaged (run new cs)
run-IsManaged cs = run_from-IsManaged new cs new-IsManaged
