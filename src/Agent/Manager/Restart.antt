-- ===== src/Agent/Manager/Restart.antt =====
-- Which rules are filed after a removal, a reconciliation and a restart.
use emorelay.Base.{
  ℕ, ◌≡◌, refl, subst, ap, sym, ◌∙◌, true, false, not, ◌&&◌, none, some, List, [], ◌∷◌, ◌==◌,
  if◌then◌else◌, contains, retain, arith, is_some, Bool-cases, inl, inr, ==_iff,
}
use emorelay.Base.Dict
use emorelay.Agent.Manager.{
  RuleHandles, Env, RuleManager, drop_rule, apply, remove, drop_rules, reconcile, restart,
}
use emorelay.Agent.Manager.Tasks.{drop_rule-lookup}
use emorelay.Agent.Manager.Outcome.{rule_at, placed, apply-rule_at}

drop_rules-rule_at :
    (m : RuleManager) (ids : List ℕ) (j : ℕ)
    → rule_at (drop_rules m ids) j ≡ (if contains ids j then none else rule_at m j)
unfolding drop_rules
drop_rules-rule_at m [] j = refl
drop_rules-rule_at m (id ∷ ids) j =
    ground (arith, drop_rules-rule_at (drop_rule m id) ids j, drop_rule-lookup m id j)

pub remove-rule_at :
    (m : RuleManager) (id j : ℕ) → rule_at (remove m id) j ≡ (if id == j then none else rule_at m j)
unfolding remove
remove-rule_at m id j = ground (arith, drop_rule-lookup m id j)

contains-orphans :
    (keep_ids ids : List ℕ) (j : ℕ)
    → contains (retain (λ id. not (contains keep_ids id)) ids) j
      ≡ (contains ids j && not (contains keep_ids j))
contains-orphans keep_ids [] j = refl
contains-orphans keep_ids (i ∷ ids) j = elim (Bool-cases (i == j)) [
  | inl e ↦
      let same : contains keep_ids i ≡ contains keep_ids j =
        ap (contains keep_ids) ((==_iff i j).0 e) in
      ground (arith, e, same, contains-orphans keep_ids ids j)
  | inr e ↦ ground (arith, e, contains-orphans keep_ids ids j)
]

-- `reconcile` keeps exactly the rules whose ids it is given, and reports as orphans exactly the
-- other ids that held a rule.
pub reconcile-rule_at :
    (m : RuleManager) (keep_ids : List ℕ) (j : ℕ)
    → let (n, orphans) = reconcile m keep_ids in
      (rule_at n j ≡ (if contains keep_ids j then rule_at m j else none))
      × (contains orphans j ≡ (is_some (rule_at m j) && not (contains keep_ids j)))
unfolding reconcile
reconcile-rule_at m keep_ids j = (
  ground (
    arith,
    drop_rules-rule_at m orphans j,
    contains-orphans keep_ids (Dict.keys m.handles) j,
    Dict.contains-keys j m.handles,
  ),
  ground (arith, contains-orphans keep_ids (Dict.keys m.handles) j, Dict.contains-keys j m.handles),
)
  where
    orphans : List ℕ
    orphans = retain (λ id. not (contains keep_ids id)) (Dict.keys m.handles)

unfiled : (m : RuleManager) (j : ℕ) → rule_at m j ≡ none → Dict.lookup j m.handles ≡ none
unfiled m j e = ground (arith, e)

restart_absent :
    (env : Env) (m : RuleManager) (id : ℕ)
    → Dict.lookup id m.handles ≡ none
    → restart env m id ≡ (m, true)
unfolding restart
restart_absent env m id e = rw (e, restart) refl

restart_filed :
    (env : Env) (m : RuleManager) (id : ℕ) (h : RuleHandles)
    → Dict.lookup id m.handles ≡ some h
    → restart env m id ≡ apply env (drop_rule m id) h.rule
unfolding restart
restart_filed env m id h e = rw (e, restart) refl

-- What `restart` does to the rules that are filed: a rule whose restart succeeds stays, one whose
-- restart fails is gone, and every other id keeps its rule.
pub restart-rule_at :
    (env : Env) (m : RuleManager) (id : ℕ) (h : RuleHandles) (j : ℕ)
    → Dict.lookup id m.handles ≡ some h
    → h.rule.id ≡ id
    → let (n, ok) = restart env m id in rule_at n j ≡ placed h.rule ok j (rule_at m j)
restart-rule_at env m id h j e same =
    subst (λ p. rule_at p.0 j ≡ placed h.rule p.1 j (rule_at m j))
      (sym (restart_filed env m id h e))
      (apply-rule_at env (drop_rule m id) h.rule j ∙ ground (arith, drop_rule-lookup m id j, same))

-- A restart of a rule that is filed under its id: if the listeners do not start again, the call
-- reports the error and the rule is gone; the next restart then reports success and changes nothing.
pub restart_lost :
    (env later : Env) (m : RuleManager) (h : RuleHandles) (id : ℕ)
    → Dict.lookup id m.handles ≡ some h
    → h.rule.id ≡ id
    → (restart env m id).1 ≡ false
    → let n = (restart env m id).0 in
      (Dict.lookup id n.handles ≡ none) × (restart later n id ≡ (n, true))
restart_lost env later m h id e same failed =
    let n = (restart env m id).0 in
    let gone : rule_at n id ≡ none =
      restart-rule_at env m id h id e same ∙ ground (arith, failed, same) in
    (unfiled n id gone, restart_absent later n id (unfiled n id gone))
