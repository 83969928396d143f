-- ===== src/Panel/Dispatch/Delivery.antt =====
-- What is sent for a rule over a tunnel.
use emorelay.Base.{
  ℕ, ◌≡◌, refl, subst, sym, true, Option, none, some, List, [], ◌∷◌, ◌++◌, String, str_eq, ◌==◌,
  if◌then◌else◌, is_some, arith, Bool-cases, Option-cases, List-cases, inl, inr, ◌⊎◌, All,
  All-append,
}
use mathlib.Core.List.{Memᴰ}
use emorelay.Proto.{Rule, Command, TargetEndpoint, TunnelCredentials, applied, applied_rules}
use emorelay.Panel.Db.{
  Db, DbRule, Tunnel, find_tunnel, find_hop_for_node, list_for_tunnel, list_active_for_node,
  list_active_for_tunnel, list_tunnel_ids_for_node,
}
use emorelay.Panel.Split.Chain.{split_tunnel_rule-tunnelled}
use emorelay.Panel.Dispatch.{
  apply_command, rule_to_proto, node_block_protocols, split_for, own_applies, parts_for,
  tunnel_applies, credentials_for, tunnel_commands, reconcile_commands_for_node, split_input,
  hop_inputs,
}

-- A rule that is sent goes over a tunnel, or is one of these rows, of which it names none, as it stands.
abbrev pub Kept : (String → Option (List TargetEndpoint)) → List DbRule → ℕ → Rule → Type 0
Kept from_str rows mask r =
    (is_some r.tunnel ≡ true)
    ⊎ ((u : DbRule) × Memᴰ u rows × (u.tunnel_id ≡ none) × (r ≡ rule_to_proto from_str u mask))

abbrev pub AllKept :
    (String → Option (List TargetEndpoint)) → List DbRule → ℕ → List Command → Type 0
AllKept from_str rows mask cmds = All (Kept from_str rows mask) (applied_rules cmds)

applied_rules-append :
    (cs ds : List Command) → applied_rules (cs ++ ds) ≡ applied_rules cs ++ applied_rules ds
applied_rules-append [] ds = refl
applied_rules-append (c ∷ cs) ds = elim (Option-cases (applied c)) [
  | inl e ↦ ground (arith, e, applied_rules-append cs ds)
  | inr (r, e) ↦ ground (arith, e, applied_rules-append cs ds)
]

abbrev pub Tunnelled : List (ℕ × Rule) → Type 0
Tunnelled parts = All (λ (p : ℕ × Rule). is_some p.1.tunnel ≡ true) parts

abbrev pub TunnelledSplit : Option (List (ℕ × Rule)) → Type 0
TunnelledSplit none = Unit
TunnelledSplit (some parts) = Tunnelled parts

split_for-tunnelled : (db : Db) (rule : DbRule) (tid : ℕ) → TunnelledSplit (split_for db rule tid)
unfolding split_for
split_for-tunnelled db rule tid = elim (Option-cases (find_tunnel db tid)) [
  | inl e ↦ rw (e, split_for) tt
  | inr (tunnel, e) ↦ elim (List-cases (list_for_tunnel db tid)) [
    | inl f ↦ rw (e, f, split_for) tt
    | inr (h, hs, f) ↦
        rw (e, f, split_for)
          (split_tunnel_rule-tunnelled (split_input rule tid tunnel) (hop_inputs db (h ∷ hs)))
  ]
]

module _ (from_str : String → Option (List TargetEndpoint))
    (issue : ℕ → ℕ → Option TunnelCredentials) where
  module _ (rows : List DbRule) (mask : ℕ) where
    abbrev Fine : List Command → Type 0
    Fine cmds = AllKept from_str rows mask cmds

    append-AllKept : (cs ds : List Command) → Fine cs → Fine ds → Fine (cs ++ ds)
    append-AllKept cs ds a b =
        subst (All (Kept from_str rows mask)) (sym (applied_rules-append cs ds))
          (All-append (Kept from_str rows mask) (applied_rules cs) (applied_rules ds) a b)

    own_applies-AllKept :
        (rs : List DbRule)
        → ((u : DbRule) → Memᴰ u rs → Memᴰ u rows)
        → Fine (own_applies from_str issue rs mask)
    unfolding apply_command
    own_applies-AllKept [] k = tt
    own_applies-AllKept (r ∷ rs) k =
        let rest = own_applies-AllKept rs (λ u m. k u (Memᴰ.tail m)) in
        elim (Option-cases r.tunnel_id) [
          | inl e ↦ rw (e, if◌then◌else◌) (inr (r, k r (Memᴰ.head refl), e, refl), rest)
          | inr (t, e) ↦ rw (e, if◌then◌else◌) rest
        ]

    parts_for-AllKept :
        (node_id : ℕ) (parts : List (ℕ × Rule))
        → Tunnelled parts
        → Fine (parts_for from_str issue node_id parts)
    parts_for-AllKept node_id [] t = tt
    parts_for-AllKept node_id ((nid, proto) ∷ parts) (t, ts) = elim (Bool-cases (nid == node_id)) [
      | inl e ↦ rw (e, if◌then◌else◌) (inl t, parts_for-AllKept node_id parts ts)
      | inr e ↦ rw (e, if◌then◌else◌) (parts_for-AllKept node_id parts ts)
    ]

    tunnel_applies-AllKept :
        (db : Db) (node_id tid : ℕ) (rs : List DbRule)
        → Fine (tunnel_applies from_str issue db node_id tid rs)
    tunnel_applies-AllKept db node_id tid [] = tt
    tunnel_applies-AllKept db node_id tid (r ∷ rs) = elim (Option-cases (split_for db r tid)) [
      | inl e ↦ rw (e, tunnel_applies) (tunnel_applies-AllKept db node_id tid rs)
      | inr (parts, e) ↦
          rw (e, tunnel_applies)
            (append-AllKept (parts_for from_str issue node_id parts)
              (tunnel_applies from_str issue db node_id tid rs)
              (parts_for-AllKept node_id parts
                (subst TunnelledSplit e (split_for-tunnelled db r tid)))
              (tunnel_applies-AllKept db node_id tid rs))
    ]

    credentials_for-AllKept :
        (db : Db) (node_id : ℕ) (tunnel : Tunnel)
        → Fine (credentials_for from_str issue db node_id tunnel)
    credentials_for-AllKept db node_id tunnel = elim (Bool-cases (str_eq tunnel.transport "tcp")) [
      | inl e ↦ rw (e, if◌then◌else◌) tt
      | inr e ↦ elim (Option-cases (find_hop_for_node db tunnel.id node_id)) [
        | inl f ↦ rw (e, f, if◌then◌else◌) tt
        | inr (hop, f) ↦ elim (Option-cases (issue tunnel.id hop.ordinal)) [
          | inl g ↦ rw (e, f, g, if◌then◌else◌) tt
          | inr (c, g) ↦ rw (e, f, g, if◌then◌else◌) tt
        ]
      ]
    ]

    tunnel_commands-AllKept :
        (db : Db) (node_id : ℕ) (tids : List ℕ)
        → Fine (tunnel_commands from_str issue db node_id tids)
    tunnel_commands-AllKept db node_id [] = tt
    tunnel_commands-AllKept db node_id (tid ∷ tids) = elim (Option-cases (find_tunnel db tid)) [
      | inl e ↦ rw (e, tunnel_commands) (tunnel_commands-AllKept db node_id tids)
      | inr (tunnel, e) ↦
          let rules =
            tunnel_applies from_str issue db node_id tid (list_active_for_tunnel db tid) in
          let others = tunnel_commands from_str issue db node_id tids in
          rw (e, tunnel_commands)
            (append-AllKept (credentials_for from_str issue db node_id tunnel) (rules ++ others)
              (credentials_for-AllKept db node_id tunnel)
              (append-AllKept rules others
                (tunnel_applies-AllKept db node_id tid (list_active_for_tunnel db tid))
                (tunnel_commands-AllKept db node_id tids)))
    ]

  -- Among all the rules that a node is sent when it is reconciled, each either runs over a tunnel or is a
  -- live row of this node as it stands, and one that names no tunnel: a rule over a tunnel never turns into a
  -- plain relay, even when its tunnel is gone.
  pub reconcile-AllKept :
      (db : Db) (node_id : ℕ)
      → AllKept from_str
          (list_active_for_node db node_id)
          (node_block_protocols db node_id)
          (reconcile_commands_for_node from_str issue db node_id)
  unfolding reconcile_commands_for_node
  reconcile-AllKept db node_id =
      let rows = list_active_for_node db node_id in
      let mask = node_block_protocols db node_id in
      let tids = list_tunnel_ids_for_node db node_id in
      append-AllKept rows mask (own_applies from_str issue rows mask)
        (tunnel_commands from_str issue db node_id tids)
        (own_applies-AllKept rows mask rows (λ u m. m))
        (tunnel_commands-AllKept rows mask db node_id tids)
