-- ===== src/Agent/Manager/Outcome.antt =====
-- What `apply` answers and which rules are filed afterwards.
use emorelay.Base.{
  ℕ, ◌≡◌, refl, subst, ap, ap₂, sym, ◌∙◌, Bool, true, false, not, ◌&&◌, ◌||◌, Option, none, some,
  str_eq, ◌==◌, if◌then◌else◌, arith, is_some, Option-cases, Bool-cases, inl, inr, ==_iff,
}
use emorelay.Base.Dict
use emorelay.Proto.{Rule, TunnelContext}
use emorelay.Agent.Manager.{
  Kind, tcp, udp, tunnel, same_kind, RuleHandles, Env, RuleManager, drop_rule, start_task,
  start_one, start_both, start_protocol, start_rule, apply, keep_handles,
}
use emorelay.Agent.Manager.Tasks.{drop_rule-lookup}
use emorelay.Agent.Manager.Upkeep.{drop_rule-absent}

abbrev pub rule_of : Option RuleHandles → Option Rule
rule_of none = none
rule_of (some h) = some h.rule

-- The rule that is filed under an id.
abbrev pub rule_at : RuleManager → ℕ → Option Rule
rule_at m j = rule_of (Dict.lookup j m.handles)

-- Whether a rule asks for any listener: a tunnel, or a protocol that the code knows.
abbrev pub listens : Rule → Bool
listens r =
    is_some r.tunnel
    || (str_eq r.protocol "tcp" || (str_eq r.protocol "udp" || str_eq r.protocol "tcp_udp"))

-- What is filed under `j` once `rule` was put in place of its older version.
abbrev pub placed : Rule → Bool → ℕ → Option Rule → Option Rule
placed rule ok j old =
    if rule.id == j then (if ok && (rule.enabled && listens rule) then some rule else none) else old

keep-rule_at :
    (m : RuleManager) (rule : Rule) (t u v : Bool) (j : ℕ)
    → rule_at (keep_handles m rule t u v) j ≡ (if rule.id == j then some rule else rule_at m j)
keep-rule_at m rule t u v j = ground (
  arith,
  Dict.lookup-insert rule.id j (record { rule = rule; tcp = t; udp = u; tunnel = v }) m.handles,
)

module _ (env : Env) (m : RuleManager) (rule : Rule) (absent : Dict.lookup rule.id m.handles ≡ none)
    (j : ℕ) where
  -- A start that did not file the rule.
  unplaced :
      (ok : Bool)
      → (ok && (rule.enabled && listens rule)) ≡ false
      → rule_at m j ≡ placed rule ok j (rule_at m j)
  unplaced ok e = elim (Bool-cases (rule.id == j)) [
    | inl at ↦ rw (at, e, ← (==_iff rule.id j).0 at, absent) refl
    | inr at ↦ rw at refl
  ]

  -- A start that filed it.
  filed :
      (old : Option Rule)
      → rule.enabled ≡ true
      → listens rule ≡ true
      → (if rule.id == j then some rule else old) ≡ placed rule true j old
  filed old on l =
      ap (λ b. if rule.id == j then (if b then some rule else none) else old)
        (sym (ap₂ (λ a b. a && b) on l))

  start_one-rule_at :
      (kind : Kind)
      → rule.enabled ≡ true
      → listens rule ≡ true
      → let (n, ok) = start_one env m kind rule in rule_at n j ≡ placed rule ok j (rule_at m j)
  unfolding start_one start_task
  start_one-rule_at kind on l = elim (Bool-cases (env.start kind rule).started) [
    | inl e ↦ rw e (
        keep-rule_at m rule (same_kind kind tcp) (same_kind kind udp) (same_kind kind tunnel) j
        ∙ filed (rule_at m j) on l)
    | inr e ↦ rw e (unplaced false refl)
  ]

  start_both-rule_at :
      rule.enabled ≡ true
      → listens rule ≡ true
      → let (n, ok) = start_both env m rule in rule_at n j ≡ placed rule ok j (rule_at m j)
  unfolding start_both start_task
  start_both-rule_at on l = elim (Bool-cases (env.start tcp rule).started) [
    | inl e ↦ elim (Bool-cases (env.start udp rule).started) [
      | inl f ↦ rw (e, f) (keep-rule_at m rule true true false j ∙ filed (rule_at m j) on l)
      | inr f ↦ rw (e, f) (unplaced false refl)
    ]
    | inr e ↦ rw e (unplaced false refl)
  ]

  abbrev Placed : RuleManager × Bool → Type 0
  Placed (n, ok) = rule_at n j ≡ placed rule ok j (rule_at m j)

  as_tcp : str_eq rule.protocol "tcp" ≡ true → start_protocol env m rule ≡ start_one env m tcp rule
  unfolding start_protocol
  as_tcp e = rw (e, if◌then◌else◌) refl

  as_udp :
      str_eq rule.protocol "tcp" ≡ false
      → str_eq rule.protocol "udp" ≡ true
      → start_protocol env m rule ≡ start_one env m udp rule
  unfolding start_protocol
  as_udp e f = rw (e, f, if◌then◌else◌) refl

  as_both :
      str_eq rule.protocol "tcp" ≡ false
      → str_eq rule.protocol "udp" ≡ false
      → str_eq rule.protocol "tcp_udp" ≡ true
      → start_protocol env m rule ≡ start_both env m rule
  unfolding start_protocol
  as_both e f g = rw (e, f, g, if◌then◌else◌) refl

  as_neither :
      str_eq rule.protocol "tcp" ≡ false
      → str_eq rule.protocol "udp" ≡ false
      → str_eq rule.protocol "tcp_udp" ≡ false
      → start_protocol env m rule ≡ (m, true)
  unfolding start_protocol
  as_neither e f g = rw (e, f, g, if◌then◌else◌) refl

  start_protocol-rule_at :
      is_some rule.tunnel ≡ false → rule.enabled ≡ true → Placed (start_protocol env m rule)
  start_protocol-rule_at p on = elim (Bool-cases (str_eq rule.protocol "tcp")) [
    | inl e ↦ subst Placed (sym (as_tcp e)) (start_one-rule_at tcp on (ground (arith, p, e)))
    | inr e ↦ elim (Bool-cases (str_eq rule.protocol "udp")) [
      | inl f ↦ subst Placed (sym (as_udp e f)) (start_one-rule_at udp on (ground (arith, p, e, f)))
      | inr f ↦ elim (Bool-cases (str_eq rule.protocol "tcp_udp")) [
        | inl g ↦
            subst Placed (sym (as_both e f g)) (start_both-rule_at on (ground (arith, p, e, f, g)))
        | inr g ↦
            subst Placed (sym (as_neither e f g))
              (unplaced true (ap₂ (λ a b. a && b) on (ground (arith, p, e, f, g))))
      ]
    ]
  ]

  -- What an enabled rule comes to.
  abbrev after : Option TunnelContext → Bool → RuleManager × Bool
  after o t = elim o [
    | some ctx ↦ if t then start_one env m tunnel rule else (m, false)
    | none ↦ start_protocol env m rule
  ]

  disabled : rule.enabled ≡ false → start_rule env m rule ≡ (m, true)
  unfolding start_rule
  disabled off = rw (off, if◌then◌else◌) refl

  plain :
      rule.enabled ≡ true → rule.tunnel ≡ none → start_rule env m rule ≡ start_protocol env m rule
  unfolding start_rule
  plain on e =
      ap (λ b. if not b then (m, true) else after rule.tunnel (env.make_transport rule)) on
      ∙ ap (λ o. after o (env.make_transport rule)) e

  tunnelled :
      rule.enabled ≡ true
      → (ctx : TunnelContext) → rule.tunnel ≡ some ctx
      → env.make_transport rule ≡ true
      → start_rule env m rule ≡ start_one env m tunnel rule
  unfolding start_rule
  tunnelled on ctx e t =
      ap (λ b. if not b then (m, true) else after rule.tunnel (env.make_transport rule)) on
      ∙ ap₂ after e t

  uncertified :
      rule.enabled ≡ true
      → (ctx : TunnelContext) → rule.tunnel ≡ some ctx
      → env.make_transport rule ≡ false
      → start_rule env m rule ≡ (m, false)
  unfolding start_rule
  uncertified on ctx e t =
      ap (λ b. if not b then (m, true) else after rule.tunnel (env.make_transport rule)) on
      ∙ ap₂ after e t

  start_rule-rule_at : Placed (start_rule env m rule)
  start_rule-rule_at = elim (Bool-cases rule.enabled) [
    | inr off ↦ subst Placed (sym (disabled off)) (unplaced true (ap (λ b. b && listens rule) off))
    | inl on ↦ elim (Option-cases rule.tunnel) [
      | inl e ↦ subst Placed (sym (plain on e)) (start_protocol-rule_at (ap is_some e) on)
      | inr (ctx, e) ↦ elim (Bool-cases (env.make_transport rule)) [
        | inl t ↦
            subst Placed (sym (tunnelled on ctx e t))
              (start_one-rule_at tunnel on (ground (arith, e)))
        | inr t ↦ subst Placed (sym (uncertified on ctx e t)) (unplaced false refl)
      ]
    ]
  ]

-- What `apply` does to the rules that are filed: the rule's own id holds the new version if the call
-- reports success, the rule is enabled and asks for a listener, and holds nothing otherwise; every
-- other id keeps its rule.
pub apply-rule_at :
    (env : Env) (m : RuleManager) (rule : Rule) (j : ℕ)
    → let (n, ok) = apply env m rule in rule_at n j ≡ placed rule ok j (rule_at m j)
unfolding apply
apply-rule_at env m rule j =
    start_rule-rule_at env (drop_rule m rule.id) rule (drop_rule-absent m rule.id) j
    ∙ ground (arith, drop_rule-lookup m rule.id j)
