-- ===== src/Panel/Dispatch/Reconcile.antt =====
-- What a node runs after the panel has reconciled it.
use emorelay.Base.{
  ℕ, ◌+◌, ◌≡◌, ◌≢◌, refl, ap, sym, ◌∙◌, Option, none, some, List, [], ◌∷◌, ◌++◌, String, str_eq,
  ◌==◌, if◌then◌else◌, contains, arith, is_some, Bool-cases, Option-cases, inl, inr,
}
use emorelay.Proto.{Rule, Command, TargetEndpoint, TunnelCredentials, applied_rules, rule_ids}
use emorelay.Agent.Manager.Outcome.{rule_at}
use emorelay.Agent.Manager.Success.{AllStart}
use emorelay.Agent.Store.{RuleJson}
use emorelay.Agent.Command.{World, Agent}
use emorelay.Agent.Command.Replay.{latest, AllReplay, commands, run_commands, replay-rule_at}
use emorelay.Panel.Db.{
  Db, DbRule, Tunnel, find_tunnel, list_active_for_node, list_active_for_tunnel,
  list_tunnel_ids_for_node, find_hop_for_node,
}
use emorelay.Panel.Dispatcher.Locks.{lock_order-Climbing}
use emorelay.Panel.Dispatch.{
  apply_command, authoritative_rule_ids, reconcile_rules_command, node_block_protocols, split_for,
  own_applies, parts_for, tunnel_applies, credentials_for, tunnel_commands,
  reconcile_commands_for_node, rule_to_proto,
}

authoritative_rule_ids-contains :
    (cmds : List Command) (j : ℕ)
    → contains (authoritative_rule_ids cmds) j ≡ contains (rule_ids (applied_rules cmds)) j
unfolding authoritative_rule_ids
authoritative_rule_ids-contains cmds j = (lock_order-Climbing (rule_ids (applied_rules cmds))).1 j

-- The commands as the node meets them, with what its system answers each time.
abbrev pub meets : (ℕ → World) → ℕ → List Command → List (World × Command)
meets worlds i [] = []
meets worlds i (c ∷ cs) = (worlds i, c) ∷ meets worlds (i + 1) cs

commands-meets :
    (worlds : ℕ → World) (i : ℕ) (cs : List Command) → commands (meets worlds i cs) ≡ cs
commands-meets worlds i [] = refl
commands-meets worlds i (c ∷ cs) = ap (λ ds. c ∷ ds) (commands-meets worlds (i + 1) cs)

some_not_none : (r : Rule) → some r ≢ none
some_not_none r e = ground (arith, e)

module _ (worlds : ℕ → World) (all : (i : ℕ) → AllStart (worlds i).env) where
  abbrev Replays : ℕ → List Command → Type 0
  Replays i cs = AllReplay (meets worlds i cs)

  append-Replays :
      (cs ds : List Command) (i : ℕ)
      → Replays i cs
      → ((k : ℕ) → Replays k ds)
      → Replays i (cs ++ ds)
  append-Replays [] ds i p q = q i
  append-Replays (c ∷ cs) ds i p q = (p.0, append-Replays cs ds (i + 1) p.1 q)

  module _ (from_str : String → Option (List TargetEndpoint))
      (issue : ℕ → ℕ → Option TunnelCredentials) where
    own_applies-Replays :
        (rs : List DbRule) (mask i : ℕ) → Replays i (own_applies from_str issue rs mask)
    unfolding apply_command
    own_applies-Replays [] mask i = tt
    own_applies-Replays (r ∷ rs) mask i = elim (Bool-cases (is_some r.tunnel_id)) [
      | inl e ↦ rw (e, if◌then◌else◌) (own_applies-Replays rs mask i)
      | inr e ↦
          rw (e, if◌then◌else◌)
            (
              (some_not_none (rule_to_proto from_str r mask), all i),
              own_applies-Replays rs mask (i + 1),
            )
    ]

    parts_for-Replays :
        (node_id : ℕ) (parts : List (ℕ × Rule)) (i : ℕ)
        → Replays i (parts_for from_str issue node_id parts)
    parts_for-Replays node_id [] i = tt
    parts_for-Replays node_id ((nid, proto) ∷ parts) i = elim (Bool-cases (nid == node_id)) [
      | inl e ↦
          rw (e, if◌then◌else◌)
            ((some_not_none proto, all i), parts_for-Replays node_id parts (i + 1))
      | inr e ↦ rw (e, if◌then◌else◌) (parts_for-Replays node_id parts i)
    ]

    tunnel_applies-Replays :
        (db : Db) (node_id tid : ℕ) (rs : List DbRule) (i : ℕ)
        → Replays i (tunnel_applies from_str issue db node_id tid rs)
    tunnel_applies-Replays db node_id tid [] i = tt
    tunnel_applies-Replays db node_id tid (r ∷ rs) i = elim (Option-cases (split_for db r tid)) [
      | inl e ↦ rw (e, tunnel_applies) (tunnel_applies-Replays db node_id tid rs i)
      | inr (parts, e) ↦
          rw (e, tunnel_applies)
            (append-Replays (parts_for from_str issue node_id parts)
              (tunnel_applies from_str issue db node_id tid rs) i
              (parts_for-Replays node_id parts i) (tunnel_applies-Replays db node_id tid rs))
    ]

    credentials_for-Replays :
        (db : Db) (node_id : ℕ) (tunnel : Tunnel) (i : ℕ)
        → Replays i (credentials_for from_str issue db node_id tunnel)
    credentials_for-Replays db node_id tunnel i =
        elim (Bool-cases (str_eq tunnel.transport "tcp")) [
          | inl e ↦ rw (e, if◌then◌else◌) tt
          | inr e ↦ elim (Option-cases (find_hop_for_node db tunnel.id node_id)) [
            | inl f ↦ rw (e, f, if◌then◌else◌) tt
            | inr (hop, f) ↦ elim (Option-cases (issue tunnel.id hop.ordinal)) [
              | inl g ↦ rw (e, f, g, if◌then◌else◌) tt
              | inr (c, g) ↦ rw (e, f, g, if◌then◌else◌) (tt, tt)
            ]
          ]
        ]

    tunnel_commands-Replays :
        (db : Db) (node_id : ℕ) (tids : List ℕ) (i : ℕ)
        → Replays i (tunnel_commands from_str issue db node_id tids)
    tunnel_commands-Replays db node_id [] i = tt
    tunnel_commands-Replays db node_id (tid ∷ tids) i = elim (Option-cases (find_tunnel db tid)) [
      | inl e ↦ rw (e, tunnel_commands) (tunnel_commands-Replays db node_id tids i)
      | inr (tunnel, e) ↦
          let rules =
            tunnel_applies from_str issue db node_id tid (list_active_for_tunnel db tid) in
          let others = tunnel_commands from_str issue db node_id tids in
          rw (e, tunnel_commands)
            (append-Replays (credentials_for from_str issue db node_id tunnel) (rules ++ others) i
              (credentials_for-Replays db node_id tunnel i)
              (λ k.
                append-Replays rules others k
                  (tunnel_applies-Replays db node_id tid (list_active_for_tunnel db tid) k)
                  (tunnel_commands-Replays db node_id tids)))
    ]

    reconcile-Replays :
        (db : Db) (node_id i : ℕ)
        → Replays i (reconcile_commands_for_node from_str issue db node_id)
    unfolding reconcile_commands_for_node
    reconcile-Replays db node_id i =
        let rules = list_active_for_node db node_id in
        let mask = node_block_protocols db node_id in
        append-Replays (own_applies from_str issue rules mask)
          (tunnel_commands from_str issue db node_id (list_tunnel_ids_for_node db node_id)) i
          (own_applies-Replays rules mask i)
          (tunnel_commands-Replays db node_id (list_tunnel_ids_for_node db node_id))

    -- A node connects, whatever it ran before and whatever happened while it was away. The panel
    -- replays the node's commands and closes with their authoritative ids. If every listener starts,
    -- the node then runs for each id exactly the last version among those commands, if that is
    -- enabled and asks for a listener, and nothing for every other id.
    pub reconcile_commands_for_node-rule_at :
        (to_vec : List RuleJson → List ℕ) (db : Db) (node_id : ℕ) (a : Agent) (w : World) (j : ℕ)
        → let cmds = reconcile_commands_for_node from_str issue db node_id in
          let close = reconcile_rules_command (authoritative_rule_ids cmds) in
          let b = run_commands to_vec a (meets worlds 0 cmds) in
          let c = run_commands to_vec b ((w, close) ∷ []) in
          rule_at c.manager j ≡ latest (applied_rules cmds) j none
    unfolding reconcile_rules_command
    reconcile_commands_for_node-rule_at to_vec db node_id a w j =
        let cmds = reconcile_commands_for_node from_str issue db node_id in
        let same = commands-meets worlds 0 cmds in
        replay-rule_at to_vec a (meets worlds 0 cmds) w (authoritative_rule_ids cmds) j
          (reconcile-Replays db node_id 0)
          (authoritative_rule_ids-contains cmds j
            ∙ ap (λ cs. contains (rule_ids (applied_rules cs)) j) (sym same))
        ∙ ap (λ cs. latest (applied_rules cs) j none) same
