-- ===== src/Agent/Command/Persist.antt =====
-- What a command does to the state file.
use emorelay.Base.{
  ◌≡◌, refl, subst, Bool, true, Option, none, some, List, arith, Bool-cases, inl, inr, ◌⊎◌, ℕ,
}
use emorelay.Proto.{
  Body, Command, apply_rule, remove_rule, restart_rule, enable_rule, disable_rule, reconcile_rules,
  tunnel_credentials, revoke_tunnel_credentials, upgrade_agent, probe,
}
use emorelay.Agent.Manager.{RuleManager, current_rules}
use emorelay.Agent.Store.{
  RuleJson, Ending, create_fails, write_stops, rename_fails, flush_fails, completes, save, load,
}
use emorelay.Agent.Store.RoundTrip.{Parses, beginning, load-save}
use emorelay.Agent.Command.{World, Agent, change_rules, handle_rules, handle_body, handle_command}

module _ (to_vec : List RuleJson → List ℕ) (from_slice : List ℕ → Option (List RuleJson)) where
  -- The file is as it was, or holds exactly the rules that the node runs now, or, if the flush failed,
  -- the beginning of them that was written.
  abbrev pub Persisted : Ending → Agent → Agent × Bool → Type 0
  Persisted e a r =
      (load from_slice true r.0.disk ≡ load from_slice true a.disk)
      ⊎ ((r.1 ≡ true)
          × ((load from_slice true r.0.disk ≡ some (current_rules r.0.manager))
              ⊎ ((n : ℕ) × (e ≡ flush_fails n)
                  × (load from_slice true r.0.disk
                      ≡ beginning to_vec from_slice n (current_rules r.0.manager)))))

  -- The codec reads back the rules that a command leaves.
  abbrev pub ParsesAfter : Agent × Bool → Type 0
  ParsesAfter (b, ok) = Parses to_vec from_slice (current_rules b.manager)

  saved :
      (a : Agent) (m : RuleManager) (e : Ending)
      → Parses to_vec from_slice (current_rules m)
      → Persisted e a
          (record a { manager = m; disk = (save to_vec a.disk (current_rules m) e).0 }, true)
  saved a m create_fails p =
      inl (load-save to_vec from_slice a.disk (current_rules m) create_fails p)
  saved a m (write_stops n) p =
      inl (load-save to_vec from_slice a.disk (current_rules m) (write_stops n) p)
  saved a m rename_fails p =
      inl (load-save to_vec from_slice a.disk (current_rules m) rename_fails p)
  saved a m (flush_fails n) p =
      inr (
        refl,
        inr (n, refl, load-save to_vec from_slice a.disk (current_rules m) (flush_fails n) p),
      )
  saved a m completes p =
      inr (refl, inl (load-save to_vec from_slice a.disk (current_rules m) completes p))

  handle_rules-Persisted :
      (w : World) (a : Agent) (body : Body)
      → Parses to_vec from_slice (current_rules (change_rules w.env a.manager body).0)
      → Persisted w.ending a (handle_rules to_vec w a body)
  unfolding handle_rules
  handle_rules-Persisted w a body p = elim (Bool-cases (change_rules w.env a.manager body).1) [
    | inl e ↦ rw e (saved a (change_rules w.env a.manager body).0 w.ending p)
    | inr e ↦ rw e (inl refl)
  ]

  handle_rules-manager :
      (w : World) (a : Agent) (body : Body)
      → (handle_rules to_vec w a body).0.manager ≡ (change_rules w.env a.manager body).0
  unfolding handle_rules
  handle_rules-manager w a body = ground arith

  rules_case :
      (w : World) (a : Agent) (body : Body)
      → ParsesAfter (handle_rules to_vec w a body)
      → Persisted w.ending a (handle_rules to_vec w a body)
  rules_case w a body p =
      handle_rules-Persisted w a body
        (subst (λ m. Parses to_vec from_slice (current_rules m)) (handle_rules-manager w a body) p)

  handle_body-Persisted :
      (w : World) (a : Agent) (body : Body)
      → ParsesAfter (handle_body to_vec w a body)
      → Persisted w.ending a (handle_body to_vec w a body)
  unfolding handle_body
  handle_body-Persisted w a (apply_rule r) p = rules_case w a (apply_rule r) p
  handle_body-Persisted w a (remove_rule id) p = rules_case w a (remove_rule id) p
  handle_body-Persisted w a (restart_rule id) p = rules_case w a (restart_rule id) p
  handle_body-Persisted w a (reconcile_rules ids) p = rules_case w a (reconcile_rules ids) p
  handle_body-Persisted w a (enable_rule id) p = rules_case w a (enable_rule id) p
  handle_body-Persisted w a (disable_rule id) p = rules_case w a (disable_rule id) p
  handle_body-Persisted w a (tunnel_credentials c) p = inl refl
  handle_body-Persisted w a (revoke_tunnel_credentials id) p = inl refl
  handle_body-Persisted w a (upgrade_agent u) p = elim (Bool-cases a.upgrading) [
    | inl e ↦ rw e (inl refl)
    | inr e ↦ rw e (inl refl)
  ]
  handle_body-Persisted w a (probe q) p = inl refl

  -- Whatever a command does, however it fails, and wherever the save of the state is cut off: what a
  -- restart of the agent that can read the file would load is what it would have loaded before the
  -- command, or, if the command succeeded, exactly the rules that the node now runs, or, only if the
  -- command succeeded and the flush of the save failed, what the codec makes of the beginning of
  -- those rules that was written. Provided that the codec parses what it wrote for those rules.
  pub handle_command-Persisted :
      (w : World) (a : Agent) (cmd : Command)
      → ParsesAfter (handle_command to_vec w a cmd)
      → Persisted w.ending a (handle_command to_vec w a cmd)
  unfolding handle_command
  handle_command-Persisted w a cmd p = by_body cmd.body p
    where
      by_body :
          (o : Option Body)
          → ParsesAfter (handle_command to_vec w a (record { body = o }))
          → Persisted w.ending a (handle_command to_vec w a (record { body = o }))
      by_body none q = inl refl
      by_body (some body) q = handle_body-Persisted w a body q
