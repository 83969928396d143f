-- ===== src/Agent/Manager/Tasks.antt =====
-- The tasks that run are those that the map holds handles for: the start of listeners.
use emorelay.Base.{
  ℕ, ◌≡◌, ◌∙◌, Bool, true, false, Option, none, some, str_eq, ◌==◌, if◌then◌else◌, arith, is_some,
  ◌||◌, Option-cases, Bool-cases, inl, inr, ==_iff,
}
use emorelay.Base.Dict
use emorelay.Proto.{Rule}
use emorelay.Agent.Stats
use emorelay.Agent.Stats.{StatsCollector}
use emorelay.Agent.Manager.{
  Kind, tcp, udp, tunnel, same_kind, RuleHandles, Env, RuleManager, has_handle, drop_rule,
  start_task, start_one, start_both, start_protocol, keep_handles, start_live, stop_live,
}

-- The tasks that the map accounts for.
abbrev pub held : Option RuleHandles → Kind → ℕ
held none k = 0
held (some h) k = if has_handle h k then 1 else 0

-- The listeners that a rule asks for.
abbrev pub wants : Rule → Kind → Bool
wants r k =
    if is_some r.tunnel
    then same_kind tunnel k
    else (if str_eq r.protocol "tcp"
        then same_kind tcp k
        else (if str_eq r.protocol "udp"
            then same_kind udp k
            else (if str_eq r.protocol "tcp_udp"
                then same_kind tcp k || same_kind udp k
                else false)))

-- What the map says of a rule: it stands under its own id, is enabled, and has the handles that it
-- asks for.
abbrev pub Filed : ℕ → Option RuleHandles → Type 0
Filed id none = Unit
Filed id (some h) =
    (h.rule.id ≡ id) × (h.rule.enabled ≡ true) × ((k : Kind) → has_handle h k ≡ wants h.rule k)

pub record IsManaged (m : RuleManager) : Type 0 where
  pub is_map : Dict.IsMap m.handles
  pub filed : (id : ℕ) → Filed id (Dict.lookup id m.handles)
  pub tasks : (id : ℕ) (k : Kind) → m.live id k ≡ held (Dict.lookup id m.handles) k

pub drop_rule-lookup :
    (m : RuleManager) (id j : ℕ)
    → Dict.lookup j (drop_rule m id).handles ≡ (if id == j then none else Dict.lookup j m.handles)
unfolding drop_rule
drop_rule-lookup m id j = elim (Option-cases (Dict.lookup id m.handles)) [
  | inl e ↦ ground (arith, e)
  | inr (h, e) ↦ ground (arith, e, Dict.lookup-remove id j m.handles)
]

drop_rule-live :
    (m : RuleManager) (id j : ℕ) (k : Kind)
    → m.live j k ≡ held (Dict.lookup j m.handles) k
    → (drop_rule m id).live j k ≡ held (if id == j then none else Dict.lookup j m.handles) k
unfolding drop_rule
drop_rule-live m id j k h = ground arith

drop_rule-IsMap :
    (m : RuleManager) (id : ℕ) → Dict.IsMap m.handles → Dict.IsMap (drop_rule m id).handles
unfolding drop_rule
drop_rule-IsMap m id h = ground (arith, Dict.remove-IsMap id m.handles h)

pub drop_rule-IsManaged : (m : RuleManager) (id : ℕ) → IsManaged m → IsManaged (drop_rule m id)
drop_rule-IsManaged m id v = record {
  is_map = drop_rule-IsMap m id v.is_map;
  filed = λ j. rw (drop_rule-lookup m id j) (dropped j);
  tasks = λ j k. rw (drop_rule-lookup m id j) (drop_rule-live m id j k (v.tasks j k));
}
  where
    dropped : (j : ℕ) → Filed j (if id == j then none else Dict.lookup j m.handles)
    dropped j = elim (Bool-cases (id == j)) [ inl e ↦ rw e tt | inr e ↦ rw e (v.filed j) ]

keep-IsManaged :
    (m : RuleManager) (live : ℕ → Kind → ℕ) (stats : StatsCollector) (rule : Rule) (t u v : Bool)
    → IsManaged m
    → rule.enabled ≡ true
    → let h : RuleHandles = record { rule = rule; tcp = t; udp = u; tunnel = v } in
      ((k : Kind) → has_handle h k ≡ wants rule k)
      → ((j : ℕ) (k : Kind) → live j k ≡ (if rule.id == j then held (some h) k else m.live j k))
      → IsManaged (keep_handles (record m { stats = stats; live = live }) rule t u v)
keep-IsManaged m live stats rule t u v i on w l = record {
  is_map = Dict.insert-IsMap rule.id h m.handles i.is_map;
  filed = λ j. rw (Dict.lookup-insert rule.id j h m.handles) (filed j);
  tasks = λ j k. rw (Dict.lookup-insert rule.id j h m.handles) (ground (arith, l j k, i.tasks j k));
}
  where
    h : RuleHandles
    h = record { rule = rule; tcp = t; udp = u; tunnel = v }

    filed : (j : ℕ) → Filed j (if rule.id == j then some h else Dict.lookup j m.handles)
    filed j = elim (Bool-cases (rule.id == j)) [
      | inl e ↦ rw e ((==_iff rule.id j).0 e, on, w)
      | inr e ↦ rw e (i.filed j)
    ]

relive-IsManaged :
    (m : RuleManager) (live : ℕ → Kind → ℕ) (stats : StatsCollector)
    → IsManaged m
    → ((j : ℕ) (k : Kind) → live j k ≡ m.live j k)
    → IsManaged (record m { stats = stats; live = live })
relive-IsManaged m live stats i l = record {
  is_map = i.is_map;
  filed = i.filed;
  tasks = λ j k. l j k ∙ i.tasks j k;
}

pub counted-IsManaged :
    (m : RuleManager) (stats : StatsCollector)
    → IsManaged m
    → IsManaged (record m { stats = stats })
counted-IsManaged m stats i = record { is_map = i.is_map; filed = i.filed; tasks = i.tasks }

module _ (env : Env) (m : RuleManager) (rule : Rule) (i : IsManaged m)
    (absent : Dict.lookup rule.id m.handles ≡ none) (on : rule.enabled ≡ true) where
  idle : (k : Kind) (j : ℕ) → (rule.id == j) ≡ true → m.live j k ≡ 0
  idle k j e =
      let at : rule.id ≡ j = (==_iff rule.id j).0 e in rw (← at) (rw (i.tasks rule.id k, absent))

  -- What `start_task` does to the counters.
  abbrev counted : Kind → StatsCollector → StatsCollector
  counted kind s = if (env.start kind rule).counted then (Stats.ensure s rule.id).0 else s

  pub start_one-IsManaged :
      (kind : Kind)
      → ((k : Kind) → same_kind kind k ≡ wants rule k)
      → IsManaged (start_one env m kind rule).0
  unfolding start_one start_task
  start_one-IsManaged kind w = elim (Bool-cases (env.start kind rule).started) [
    | inl e ↦ rw e (
        keep-IsManaged m (start_live m.live rule.id kind) (counted kind m.stats) rule
          (same_kind kind tcp) (same_kind kind udp) (same_kind kind tunnel) i on (wanted w)
          (started w))
    | inr e ↦ rw e (counted-IsManaged m (counted kind m.stats) i)
  ]
    where
      wanted :
          ((k : Kind) → same_kind kind k ≡ wants rule k)
          → (k : Kind)
          → has_handle
              (record {
                rule = rule;
                tcp = same_kind kind tcp;
                udp = same_kind kind udp;
                tunnel = same_kind kind tunnel;
              })
              k
            ≡ wants rule k
      wanted w tcp = w tcp
      wanted w udp = w udp
      wanted w tunnel = w tunnel

      started :
          ((k : Kind) → same_kind kind k ≡ wants rule k)
          → (j : ℕ) (k : Kind)
          → start_live m.live rule.id kind j k ≡ (
              if rule.id == j
              then (if has_handle
                    (record {
                      rule = rule;
                      tcp = same_kind kind tcp;
                      udp = same_kind kind udp;
                      tunnel = same_kind kind tunnel;
                    })
                    k
                  then 1
                  else 0)
              else m.live j k)
      started w j tcp = ground (arith, idle tcp j)
      started w j udp = ground (arith, idle udp j)
      started w j tunnel = ground (arith, idle tunnel j)

  start_both-IsManaged :
      ((k : Kind) → (same_kind tcp k || same_kind udp k) ≡ wants rule k)
      → IsManaged (start_both env m rule).0
  unfolding start_both start_task
  start_both-IsManaged w = elim (Bool-cases (env.start tcp rule).started) [
    | inl e ↦ elim (Bool-cases (env.start udp rule).started) [
      | inl f ↦
          rw (e, f)
            (keep-IsManaged m (start_live (start_live m.live rule.id tcp) rule.id udp)
              (counted udp (counted tcp m.stats)) rule true true false i on (wanted w) both)
      | inr f ↦
          rw (e, f)
            (relive-IsManaged m (stop_live (start_live m.live rule.id tcp) rule.id tcp)
              (counted udp (counted tcp m.stats)) i undone)
    ]
    | inr e ↦ rw e (counted-IsManaged m (counted tcp m.stats) i)
  ]
    where
      wanted :
          ((k : Kind) → (same_kind tcp k || same_kind udp k) ≡ wants rule k)
          → (k : Kind)
          → has_handle (record { rule = rule; tcp = true; udp = true; tunnel = false }) k
            ≡ wants rule k
      wanted w tcp = w tcp
      wanted w udp = w udp
      wanted w tunnel = w tunnel

      both :
          (j : ℕ) (k : Kind)
          → start_live (start_live m.live rule.id tcp) rule.id udp j k ≡ (
              if rule.id == j
              then held (some (record { rule = rule; tcp = true; udp = true; tunnel = false })) k
              else m.live j k)
      both j tcp = ground (arith, idle tcp j)
      both j udp = ground (arith, idle udp j)
      both j tunnel = ground (arith, idle tunnel j)

      undone :
          (j : ℕ) (k : Kind)
          → stop_live (start_live m.live rule.id tcp) rule.id tcp j k ≡ m.live j k
      undone j tcp = ground arith
      undone j udp = ground arith
      undone j tunnel = ground arith

  pub start_protocol-IsManaged :
      is_some rule.tunnel ≡ false → IsManaged (start_protocol env m rule).0
  unfolding start_protocol
  start_protocol-IsManaged p = elim (Bool-cases (str_eq rule.protocol "tcp")) [
    | inl e ↦ rw (e, if◌then◌else◌) (start_one-IsManaged tcp (λ k. rw (p, e)))
    | inr e ↦ elim (Bool-cases (str_eq rule.protocol "udp")) [
      | inl f ↦ rw (e, f, if◌then◌else◌) (start_one-IsManaged udp (λ k. rw (p, e, f)))
      | inr f ↦ elim (Bool-cases (str_eq rule.protocol "tcp_udp")) [
        | inl g ↦ rw (e, f, g, if◌then◌else◌) (start_both-IsManaged (λ k. rw (p, e, f, g)))
        | inr g ↦ rw (e, f, g, if◌then◌else◌) i
      ]
    ]
  ]
