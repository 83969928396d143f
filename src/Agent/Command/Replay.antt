-- ===== src/Agent/Command/Replay.antt =====
-- The replay of all rules to a node that connects, and what runs on the node afterwards.
use emorelay.Base.{
  ℕ, ◌≢◌, ◌≡◌, refl, ap, sym, ◌∙◌, true, false, Option, none, some, List, [], ◌∷◌, ◌==◌,
  if◌then◌else◌, contains, arith, Bool-cases, Option-cases, inl, inr,
}
use emorelay.Proto.{
  Rule, Body, Command, apply_rule, reconcile_rules, tunnel_credentials, remove_rule, enable_rule,
  disable_rule, restart_rule, revoke_tunnel_credentials, upgrade_agent, probe, applied,
  applied_rules, rule_ids,
}
use emorelay.Agent.Manager
use emorelay.Agent.Manager.{RuleManager}
use emorelay.Agent.Manager.Outcome.{rule_at, placed, apply-rule_at}
use emorelay.Agent.Manager.Restart.{reconcile-rule_at}
use emorelay.Agent.Manager.Success.{AllStart, apply-succeeds}
use emorelay.Agent.Store.{RuleJson}
use emorelay.Agent.Command.{World, Agent, change_rules, handle_rules, handle_body, handle_command}

-- What the rules say of an id: its last version, if that is enabled and asks for a listener; or what
-- was there before, if no rule has the id.
abbrev pub latest : List Rule → ℕ → Option Rule → Option Rule
latest [] j old = old
latest (r ∷ rs) j old = latest rs j (placed r true j old)

-- A rule to apply, with every listener starting, or the credentials of a hop.
abbrev pub IsReplay : World → Command → Type 0
IsReplay w c = elim c.body [
  | none ↦ ⊥
  | some b ↦ elim b [
    | apply_rule r ↦ (r ≢ none) × AllStart w.env
    | tunnel_credentials t ↦ Unit
    | _ ↦ ⊥
  ]
]

abbrev pub AllReplay : List (World × Command) → Type 0
AllReplay [] = Unit
AllReplay ((w, c) ∷ cs) = IsReplay w c × AllReplay cs

abbrev pub commands : List (World × Command) → List Command
commands [] = []
commands ((w, c) ∷ cs) = c ∷ commands cs

latest_sent :
    (rs : List Rule) (j : ℕ) (x y : Option Rule)
    → contains (rule_ids rs) j ≡ true
    → latest rs j x ≡ latest rs j y
latest_sent [] j x y e = ground (arith, e)
latest_sent (r ∷ rs) j x y e = elim (Bool-cases (r.id == j)) [
  | inl at ↦ rw (at, if◌then◌else◌) refl
  | inr at ↦ rw (at, if◌then◌else◌) (latest_sent rs j x y (ground (arith, e, at)))
]

latest_unsent :
    (rs : List Rule) (j : ℕ) (x : Option Rule)
    → contains (rule_ids rs) j ≡ false
    → latest rs j x ≡ x
latest_unsent [] j x e = refl
latest_unsent (r ∷ rs) j x e =
    latest_unsent rs j (placed r true j x) (ground (arith, e)) ∙ ground (arith, e)

module _ (to_vec : List RuleJson → List ℕ) where
  abbrev pub run_commands : Agent → List (World × Command) → Agent
  run_commands a [] = a
  run_commands a ((w, c) ∷ cs) = run_commands (handle_command to_vec w a c).0 cs

  reconcile-manager :
      (w : World) (a : Agent) (ids : List ℕ)
      → (handle_command to_vec w a (record { body = some (reconcile_rules ids) })).0.manager
        ≡ (Manager.reconcile a.manager ids).0
  unfolding handle_command handle_body handle_rules change_rules
  reconcile-manager w a ids = refl

  apply-manager :
      (w : World) (a : Agent) (r : Rule)
      → (handle_body to_vec w a (apply_rule (some r))).0.manager
        ≡ (Manager.apply w.env a.manager r).0
  unfolding handle_body handle_rules change_rules
  apply-manager w a r = ground arith

  replayed : Option Rule → ℕ → Option Rule → Option Rule
  replayed none j old = old
  replayed (some r) j old = placed r true j old

  step-rule_at :
      (w : World) (a : Agent) (body : Option Body) (j : ℕ)
      → let c : Command = record { body = body } in
        IsReplay w c
        → rule_at (handle_command to_vec w a c).0.manager j
          ≡ replayed (applied c) j (rule_at a.manager j)
  unfolding handle_command handle_body replayed
  step-rule_at w a (some (apply_rule (some r))) j (n, all) =
      ap (λ m. rule_at m j) (apply-manager w a r)
      ∙ apply-rule_at w.env a.manager r j
      ∙ ap (λ ok. placed r ok j (rule_at a.manager j)) (apply-succeeds w.env a.manager r all)
  step-rule_at w a (some (apply_rule none)) j (n, all) = absurd (n refl)
  step-rule_at w a (some (tunnel_credentials t)) j i = refl
  step-rule_at w a none j i = absurd i
  step-rule_at w a (some (remove_rule id)) j i = absurd i
  step-rule_at w a (some (enable_rule id)) j i = absurd i
  step-rule_at w a (some (disable_rule id)) j i = absurd i
  step-rule_at w a (some (restart_rule id)) j i = absurd i
  step-rule_at w a (some (revoke_tunnel_credentials id)) j i = absurd i
  step-rule_at w a (some (upgrade_agent u)) j i = absurd i
  step-rule_at w a (some (reconcile_rules ids)) j i = absurd i
  step-rule_at w a (some (probe p)) j i = absurd i

  latest-applied :
      (c : Command) (cs : List Command) (j : ℕ) (old : Option Rule)
      → latest (applied_rules (c ∷ cs)) j old
        ≡ latest (applied_rules cs) j (replayed (applied c) j old)
  unfolding replayed
  latest-applied c cs j old = elim (Option-cases (applied c)) [
    | inl e ↦ ground (arith, e)
    | inr (r, e) ↦ ground (arith, e)
  ]

  run_commands-rule_at :
      (a : Agent) (cs : List (World × Command)) (j : ℕ)
      → AllReplay cs
      → rule_at (run_commands a cs).manager j
        ≡ latest (applied_rules (commands cs)) j (rule_at a.manager j)
  run_commands-rule_at a [] j all = refl
  run_commands-rule_at a ((w, c) ∷ cs) j all =
      run_commands-rule_at (handle_command to_vec w a c).0 cs j all.1
      ∙ ap (latest (applied_rules (commands cs)) j) (step-rule_at w a c.body j all.0)
      ∙ sym (latest-applied c (commands cs) j (rule_at a.manager j))

  -- A node is sent rules to apply, with credentials of tunnels among them, and then the ids of those
  -- rules. If every listener starts, then for each id the node runs afterwards exactly the last
  -- version that was sent, or nothing if that version is disabled or asks for no listener, or no
  -- version was sent; whatever the node ran before.
  pub replay-rule_at :
      (a : Agent) (cs : List (World × Command)) (w : World) (ids : List ℕ) (j : ℕ)
      → AllReplay cs
      → contains ids j ≡ contains (rule_ids (applied_rules (commands cs))) j
      → let b = run_commands a cs in
        let c = run_commands b ((w, record { body = some (reconcile_rules ids) }) ∷ []) in
        rule_at c.manager j ≡ latest (applied_rules (commands cs)) j none
  replay-rule_at a cs w ids j all same =
      let b = run_commands a cs in
      let rs = applied_rules (commands cs) in
      ap (λ m. rule_at m j) (reconcile-manager w b ids)
      ∙ (reconcile-rule_at b.manager ids j).0
      ∙ rw (run_commands-rule_at a cs j all, same)
          (elim (Bool-cases (contains (rule_ids rs) j)) [
            | inl e ↦ rw e (latest_sent rs j (rule_at a.manager j) none e)
            | inr e ↦ rw e (sym (latest_unsent rs j none e))
          ])
