-- ===== src/Panel/Rules/Deliver.antt =====
-- crates/panel-server/src/routes/rules.rs: the command that a change sends.
use emorelay.Base.{
  ℕ, ◌<◌, ◌≡◌, refl, sym, ap, subst, ◌∙◌, true, false, not, ◌&&◌, Option, none, some, List, [], ◌∷◌,
  ◌++◌, String, ◌==◌, ==_refl, leb, length, if◌then◌else◌, All, All-append, arith, Option-cases,
  inl, inr, ◌⊎◌, unwrap_or,
}
use emorelay.Base.Dict
use emorelay.Proto.{Command, TargetEndpoint}
use emorelay.Panel.Db.{Db, DbRule, with_fields, update_rule, find_rule, profile_mbps}
use emorelay.Panel.Db.Updates.{EachLive, EachLive-update_rows, found-EachLive, with_fields-kept}
use emorelay.Panel.Ports.Exclusion.{Fresh}
use emorelay.Panel.Ports.Table.{IsTable, found-only}
use emorelay.Panel.Dispatcher.{CommandDispatcher, dispatch, try_send, channel_capacity}
use emorelay.Panel.Dispatch.{apply_command, node_block_protocols, dispatch_rule_apply}
use emorelay.Panel.Rules.{Formats, AuthUser, Site, find_by_id}
use emorelay.Panel.Rules.Create.{CreateRuleRequest, new_row, is_true}
use emorelay.Panel.Rules.Update.{UpdateRuleRequest, fields_of}
use emorelay.Panel.Rules.Create
use emorelay.Panel.Rules.Update
use emorelay.Panel.Rules.Create.Admission.{create-cases, created_db, stored_site, finished_site}
use emorelay.Panel.Rules.Update.Admission.{update-cases, updated_db}
use emorelay.Panel.Rules.Create.Admission as Creation
use emorelay.Panel.Rules.Handlers.{Request, creates, updates, handle, serve}
use emorelay.Panel.Rules.Handlers.Cases.{after-answer}
use emorelay.Panel.Rules.Writes.{insert_rule-rules, write_settings-cases, write_changes-cases}

-- The node is connected by the channel, which is open and has room.
pub record Connected (d : CommandDispatcher) (node_id g : ℕ) : Type 0 where
  pub filed : Dict.lookup node_id d.channels ≡ some g
  pub is_open : (d.channel g).closed ≡ false
  pub room : length (d.channel g).waiting < channel_capacity

pub dispatch-Connected :
    (d : CommandDispatcher) (node_id g : ℕ) (cmd : Command)
    → Connected d node_id g
    → ((dispatch d node_id cmd).0.channel g).waiting ≡ (d.channel g).waiting ++ (cmd ∷ [])
unfolding dispatch try_send
dispatch-Connected d node_id g cmd c =
    let room : leb channel_capacity (length (d.channel g).waiting) ≡ false =
      ground (arith, c.room) in
    rw (c.filed, c.is_open, room, ==_refl g, dispatch, if◌then◌else◌) refl

-- A rule without a tunnel, on the node.
abbrev Plain : ℕ → DbRule → Type 0
Plain node_id r = (r.node_id ≡ node_id) × (r.tunnel_id ≡ none)

apply-Connected :
    (from_str : String → Option (List TargetEndpoint)) (db : Db) (d : CommandDispatcher)
    (node_id g : ℕ) (r : DbRule)
    → Plain node_id r
    → Connected d node_id g
    → ((dispatch_rule_apply from_str db d r).channel g).waiting
      ≡ (d.channel g).waiting ++ (apply_command from_str r (node_block_protocols db node_id) ∷ [])
unfolding dispatch_rule_apply
apply-Connected from_str db d node_id g r (n, t) c =
    rw (t, n)
      (dispatch-Connected d node_id g (apply_command from_str r (node_block_protocols db node_id))
        c)

Fresh-EachLive :
    (Q : DbRule → Type 0) (n : ℕ) (rules : List DbRule) → Fresh n rules → EachLive Q n rules
Fresh-EachLive Q n [] f = tt
Fresh-EachLive Q n (r ∷ rules) (low, other, f) =
    ((λ t. absurd (ground (arith, low, t))), Fresh-EachLive Q n rules f)

find_by_id-Plain :
    (s : Site) (node_id id : ℕ) (rule : DbRule)
    → EachLive (Plain node_id) id s.db.rules
    → find_by_id s id ≡ some rule
    → Plain node_id rule
find_by_id-Plain s node_id id rule o h = elim (Option-cases (find_rule s.db id)) [
  | inl e ↦ absurd (ground (arith, sym h ∙ ap load e))
  | inr (r, e) ↦
      let same : some (filled r) ≡ some rule = sym (ap load e) ∙ h in
      subst (Plain node_id) (ap (λ x. unwrap_or x rule) same)
        (found-EachLive (Plain node_id) id s.db.rules r o e)
]
  where
    filled : DbRule → DbRule
    filled r = record r { bandwidth_mbps = profile_mbps s.db r.bandwidth_profile_id }

    load : Option DbRule → Option DbRule
    load o = elim o [ none ↦ none | some r ↦ some (filled r) ]

-- Which live rule a request is about to send, if it is a plain one: its id and its node.
abbrev pub Places : Site → Request → ℕ → ℕ → Type 0
Places s (creates r) id node_id =
    (s.db.next_rule_id ≡ id) × (r.node_id ≡ node_id) × (r.tunnel_id ≡ none)
Places s (updates i r) id node_id =
    (i ≡ id)
    × ((e : DbRule) × (find_rule s.db i ≡ some e) × (e.node_id ≡ node_id) × (e.tunnel_id ≡ none))
Places s req id node_id = ⊥

module _ (formats : Formats) (s : Site) (auth : AuthUser) (node_id g : ℕ) (table : IsTable s.db)
    (c : Connected s.dispatcher node_id g) where
  -- Nothing has changed, or the rule as the database now has it waits last in the node's channel.
  abbrev pub Sent : ℕ → Site → Type 0
  Sent id t =
      (t ≡ s)
      ⊎ ((rule : DbRule) × (find_by_id t id ≡ some rule)
          × ((t.dispatcher.channel g).waiting
              ≡ (s.dispatcher.channel g).waiting
                ++ (apply_command formats.targets_from_str rule (node_block_protocols t.db node_id)
                    ∷ [])))

  finished-Sent :
      (db : Db) (id : ℕ) (action : String) (rule : DbRule)
      → EachLive (Plain node_id) id db.rules
      → find_by_id (stored_site formats s auth db) id ≡ some rule
      → Sent id (finished_site formats s auth db id action rule)
  finished-Sent db id action rule o h = inr (
    rule,
    h,
    apply-Connected formats.targets_from_str db s.dispatcher node_id g rule
        (find_by_id-Plain (stored_site formats s auth db) node_id id rule o h) c,
  )

  kept :
      (id : ℕ) (f : DbRule → DbRule) (d : Db)
      → ((r : DbRule) → Plain node_id r → Plain node_id (f r))
      → EachLive (Plain node_id) id d.rules
      → EachLive (Plain node_id) id (update_rule f d id).0.rules
  kept id f d k = EachLive-update_rows (Plain node_id) id f d.rules k

  created-Plain :
      (r : CreateRuleRequest) (a : Creation.Admitted formats s auth r)
      → r.node_id ≡ node_id
      → r.tunnel_id ≡ none
      → EachLive (Plain node_id) s.db.next_rule_id a.placed.inserted.rules
  unfolding new_row
  created-Plain r a n t =
      let row = new_row r a.owner_id a.placed.profile a.placed.port s.db.next_rule_id in
      subst (EachLive (Plain node_id) s.db.next_rule_id)
        (sym (insert_rule-rules s.db a.placed.inserted row a.placed.insert_ok))
        (All-append
          (λ (o : DbRule). (o.id == s.db.next_rule_id && not o.deleted) ≡ true → Plain node_id o)
          s.db.rules (row ∷ [])
          (Fresh-EachLive (Plain node_id) s.db.next_rule_id s.db.rules table.fresh)
          ((λ h. (n, t)), tt))

  existing-Plain :
      (id : ℕ) (e : DbRule)
      → find_rule s.db id ≡ some e
      → Plain node_id e
      → EachLive (Plain node_id) id s.db.rules
  existing-Plain id e f p =
      only s.db.rules (found-only s.db.next_rule_id id s.db.rules e table.fresh f)
    where
      only :
          (rules : List DbRule)
          → All (λ r. (r.id == id && not r.deleted) ≡ true → r ≡ e) rules
          → EachLive (Plain node_id) id rules
      only [] a = tt
      only (r ∷ rules) (x, a) = ((λ t. subst (Plain node_id) (sym (x t)) p), only rules a)

  -- A creation or an update of a rule without a tunnel, on a node that is connected with room in its
  -- channel: either it is refused and nothing at all has changed, or the rule, as the database then has
  -- it, waits last in the channel, with the node's blocked protocols.
  pub serve-Sent :
      (req : Request) (id : ℕ) → Places s req id node_id → Sent id (serve formats s auth req)
  unfolding serve handle
  serve-Sent (creates r) id (i, n, t) =
      subst (λ j. Sent j (serve formats s auth (creates r))) i
        (after-answer s (Sent s.db.next_rule_id) (Create.create formats s auth r) _ (
          create-cases formats s auth r (Sent s.db.next_rule_id) (inl refl) (λ a rule f.
            finished-Sent (created_db formats s auth r a.placed.inserted a.targets)
              s.db.next_rule_id "rule.create" rule
              (write_settings-cases (λ db. EachLive (Plain node_id) s.db.next_rule_id db.rules)
                s.db.next_rule_id a.placed.inserted a.targets.0 a.targets.1
                (is_true r.send_proxy_protocol) (created-Plain r a n t)
                (λ d. kept s.db.next_rule_id _ d (λ o p. p))
                (λ x d. kept s.db.next_rule_id _ d (λ o p. p)))
              f)))
  serve-Sent (updates j r) id (i, (e, found, n, t)) =
      subst (λ k. Sent k (serve formats s auth (updates j r))) i
        (after-answer s (Sent j) (Update.update formats s auth j r) _ (
          update-cases formats s auth j r (Sent j) (inl refl) (λ a rule f.
            let fields = with_fields (fields_of r a.profile) in
            finished-Sent (updated_db formats s auth j r a.profile a.targets) j "rule.update" rule
              (write_changes-cases (λ db. EachLive (Plain node_id) j db.rules) j
                (update_rule fields s.db j).0 r a.targets
                (kept j fields s.db
                  (λ o p.
                    let same = with_fields-kept (fields_of r a.profile) o in
                    (same.2 ∙ p.0, same.4 ∙ p.1))
                  (existing-Plain j e found (n, t)))
                (λ x y d. kept j _ d (λ o p. p)) (λ b y d. kept j _ d (λ o p. p))
                (λ x d. kept j _ d (λ o p. p)))
              f)))
  serve-Sent req id p = absurd p
