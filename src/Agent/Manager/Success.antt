-- ===== src/Agent/Manager/Success.antt =====
-- Calls on the manager when every listener starts.
use emorelay.Base.{◌≡◌, refl, true, arith}
use emorelay.Proto.{Rule}
use emorelay.Agent.Manager.{
  RuleManager, Env, Kind, tcp, udp, tunnel, start_task, start_one, start_both, start_protocol,
  start_rule, apply, drop_rule,
}

-- Every listener starts and every tunnel's credentials are there.
abbrev pub AllStart : Env → Type 0
AllStart env =
    ((k : Kind) (r : Rule) → (env.start k r).started ≡ true)
    × ((r : Rule) → env.make_transport r ≡ true)

module _ (env : Env) (all : AllStart env) (m : RuleManager) (rule : Rule) where
  start_one-succeeds : (kind : Kind) → (start_one env m kind rule).1 ≡ true
  unfolding start_one start_task
  start_one-succeeds kind = rw (all.0 kind rule) refl

  start_both-succeeds : (start_both env m rule).1 ≡ true
  unfolding start_both start_task
  start_both-succeeds = rw (all.0 tcp rule, all.0 udp rule) refl

  start_protocol-succeeds : (start_protocol env m rule).1 ≡ true
  unfolding start_protocol
  start_protocol-succeeds =
      ground (arith, start_one-succeeds tcp, start_one-succeeds udp, start_both-succeeds)

  start_rule-succeeds : (start_rule env m rule).1 ≡ true
  unfolding start_rule
  start_rule-succeeds =
      ground (arith, start_one-succeeds tunnel, start_protocol-succeeds, all.1 rule)

-- If everything starts, `apply` reports no error, whatever the rule says.
pub apply-succeeds :
    (env : Env) (m : RuleManager) (rule : Rule) → AllStart env → (apply env m rule).1 ≡ true
unfolding apply
apply-succeeds env m rule all = start_rule-succeeds env all (drop_rule m rule.id) rule
