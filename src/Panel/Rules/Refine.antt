-- ===== src/Panel/Rules/Refine.antt =====
-- crates/panel-server/src/routes/rules.rs: each request is a run of the operations on the table of rules.
use emorelay.Base.{
  ℕ, ◌≡◌, refl, sym, ap, subst, ◌∙◌, Bool, true, false, not, ◌||◌, ◌&&◌, Option, none, some, List,
  [], ◌∷◌, String, str_eq, is_some, contains, if◌then◌else◌, arith, Bool-cases, inl, inr, ◌⊎◌, ◌==◌,
  All,
}
use emorelay.Panel.Db.{Db, DbRule, Node, with_fields, update_rule, find_rule, find_node}
use emorelay.Panel.Settings.{reserved_ports}
use emorelay.Panel.Ports.Free.{choose_port_lem}
use emorelay.Panel.Ports.Table.{IsTable}
use emorelay.Panel.Ports.History.{
  Op, creates, updates, retargets, proxies, prefers, enables, deletes, run, run-IsTable,
}
use emorelay.Panel.Rules.{Formats, AuthUser, Site, can_touch, ensure_can_touch, not_found}
use emorelay.Panel.Rules.Owners.{owner_of_self}
use emorelay.Panel.Rules.Writes.{guard-ok_only}
use emorelay.Base.Result.{ok}
use emorelay.Panel.Rules.Create.{CreateRuleRequest, new_row, is_true}
use emorelay.Panel.Rules.Update.{fields_of, in_pool}
use emorelay.Panel.Rules.Create.Admission.{created_db}
use emorelay.Panel.Rules.Create.Admission as Creation
use emorelay.Panel.Rules.Handlers.{Request, serve, serve_all}
use emorelay.Panel.Rules.Handlers.Cases.{Touched, serve-cases}
use emorelay.Panel.Rules.Operations.{
  settings_ops, change_ops, settings-run, changes-run, creation-step, change-step,
}

module _ (formats : Formats) (s : Site) (auth : AuthUser) where
  -- The rule is the one that is created, or a live one that the caller may touch.
  abbrev pub IsWritable : ℕ → Type 0
  IsWritable id =
      (id ≡ s.db.next_rule_id)
      ⊎ ((r : DbRule) × (find_rule s.db id ≡ some r) × (can_touch auth r ≡ true))

  -- What an operation of a request may be: on a rule that the caller may write, with the site's node and
  -- reserved ports; a new row has a port that is not reserved, from the node's pool unless an
  -- administrator makes a tunnel's rule, and the caller as its owner unless an administrator names
  -- another.
  abbrev pub IsLawful : Op → Type 0
  IsLawful (creates row) =
      (node : Node) × (find_node s.db row.node_id ≡ some node)
      × (not (contains (reserved_ports formats.ports_from_str s.reserved) row.listen_port) ≡ true)
      × (((is_some row.tunnel_id && auth.is_admin) || in_pool node row.listen_port) ≡ true)
      × ((auth.is_admin || row.user_id == auth.sub) ≡ true)
  IsLawful (updates node reserved id u) =
      (existing : DbRule) × (find_rule s.db id ≡ some existing)
      × (can_touch auth existing ≡ true)
      × (find_node s.db existing.node_id ≡ some node)
      × (reserved ≡ reserved_ports formats.ports_from_str s.reserved)
  IsLawful (retargets id extra strat) = IsWritable id
  IsLawful (proxies id b) = IsWritable id
  IsLawful (prefers id af) = IsWritable id
  IsLawful (enables id b) = IsWritable id
  IsLawful (deletes id) = IsWritable id

  -- A table that such operations make of the one before the request.
  abbrev pub IsReached : Db → Type 0
  IsReached db = (ops : List Op) × All IsLawful ops × (db ≡ run s.db ops)

  touchable : (r : DbRule) → ensure_can_touch auth r ≡ ok tt → can_touch auth r ≡ true
  unfolding ensure_can_touch
  touchable r h = guard-ok_only (can_touch auth r) not_found h

  Touched-IsWritable : (id : ℕ) → Touched s auth id → IsWritable id
  Touched-IsWritable id t = inr (t.existing, t.found, touchable t.existing t.touch_ok)

  settings_ops-IsLawful :
      (id : ℕ) (t : Option String × String) (proxy : Bool)
      → IsWritable id
      → All IsLawful (settings_ops id t proxy)
  settings_ops-IsLawful id (extra, strat) true w =
      elim (Bool-cases (is_some extra || not (str_eq strat "fifo"))) [
        | inl e ↦ rw (e, if◌then◌else◌) (w, (w, tt))
        | inr e ↦ rw (e, if◌then◌else◌) (w, tt)
      ]
  settings_ops-IsLawful id (extra, strat) false w =
      elim (Bool-cases (is_some extra || not (str_eq strat "fifo"))) [
        | inl e ↦ rw (e, if◌then◌else◌) (w, tt)
        | inr e ↦ rw (e, if◌then◌else◌) tt
      ]

  change_ops-IsLawful :
      (id : ℕ) (t : Option (Option String × String)) (proxy : Option Bool) (af : Option String)
      → IsWritable id
      → All IsLawful (change_ops id t proxy af)
  change_ops-IsLawful id none none none w = tt
  change_ops-IsLawful id none none (some af) w = (w, tt)
  change_ops-IsLawful id none (some p) none w = (w, tt)
  change_ops-IsLawful id none (some p) (some af) w = (w, (w, tt))
  change_ops-IsLawful id (some (x, y)) none none w = (w, tt)
  change_ops-IsLawful id (some (x, y)) none (some af) w = (w, (w, tt))
  change_ops-IsLawful id (some (x, y)) (some p) none w = (w, (w, tt))
  change_ops-IsLawful id (some (x, y)) (some p) (some af) w = (w, (w, (w, tt)))

  owner_lawful :
      (r : CreateRuleRequest) (a : Creation.Admitted formats s auth r)
      → (auth.is_admin || a.owner_id == auth.sub) ≡ true
  owner_lawful r a = elim (Bool-cases auth.is_admin) [
    | inl e ↦ ground (arith, e)
    | inr e ↦ ground (arith, owner_of_self s auth r.user_id a.owner_id e a.owner_ok)
  ]

  creation-IsLawful :
      (r : CreateRuleRequest) (a : Creation.Admitted formats s auth r)
      → IsLawful (creates (new_row r a.owner_id a.placed.profile a.placed.port s.db.next_rule_id))
  unfolding new_row in_pool
  creation-IsLawful r a =
      let (unreserved, pool) =
        choose_port_lem s.db a.node r.listen_ip r.protocol
          (reserved_ports formats.ports_from_str s.reserved) r.listen_port (is_some r.tunnel_id)
          auth.is_admin a.placed.port a.placed.port_ok in
      (a.node, a.node_ok, unreserved, pool, owner_lawful r a)

  -- Whatever a request asks and whoever sends it: the rules after it are the result of a sequence of the
  -- checked operations on the table, each lawful. A row is inserted only at a port that the settings do
  -- not reserve, that lies in the pool of the row's node unless an administrator makes a tunnel's rule,
  -- and for the caller unless an administrator names another owner; an update is checked with the pool
  -- of the rule's own node and the reserved ports of the settings; and no operation is on a rule that
  -- the caller may not touch.
  pub serve-run : (req : Request) → IsReached (serve formats s auth req).db
  serve-run req =
      serve-cases formats s auth IsReached ([], tt, refl) req
        (λ r a. (
          creates (new_row r a.owner_id a.placed.profile a.placed.port s.db.next_rule_id)
              ∷ settings_ops s.db.next_rule_id a.targets (is_true r.send_proxy_protocol),
          (
            creation-IsLawful r a,
            settings_ops-IsLawful s.db.next_rule_id a.targets (is_true r.send_proxy_protocol)
                (inl refl),
          ),
          settings-run a.placed.inserted s.db.next_rule_id a.targets (is_true r.send_proxy_protocol)
              ∙ ap
                  (λ db.
                    run db
                      (settings_ops s.db.next_rule_id a.targets (is_true r.send_proxy_protocol)))
                  (sym (creation-step formats s auth r a)),
        ))
        (λ id r a. (
          updates a.node (reserved_ports formats.ports_from_str s.reserved) id
                (fields_of r a.profile)
              ∷ change_ops id a.targets r.send_proxy_protocol r.remote_af,
          (
            (a.existing, a.found, touchable a.existing a.touch_ok, a.node_ok, refl),
            change_ops-IsLawful id a.targets r.send_proxy_protocol r.remote_af
                (inr (a.existing, a.found, touchable a.existing a.touch_ok)),
          ),
          changes-run (update_rule (with_fields (fields_of r a.profile)) s.db id).0 id r a.targets
                r.send_proxy_protocol r.remote_af refl refl
              ∙ ap (λ db. run db (change_ops id a.targets r.send_proxy_protocol r.remote_af))
                  (sym (change-step formats s auth id r a)),
        ))
        (λ id t. (deletes id ∷ [], (Touched-IsWritable id t, tt), refl))
        (λ id on t. (enables id on ∷ [], (Touched-IsWritable id t, tt), refl))

-- Through any sequence of requests, of any users, served or refused: from a table without clashes, no
-- two live rules of a node have the same text as their listening address, the same port, and protocols
-- that need the same listener. Two spellings of one address are two texts, and are not told to clash.
pub serve_all-IsTable :
    (formats : Formats) (s : Site) (reqs : List (AuthUser × Request))
    → IsTable s.db
    → IsTable (serve_all formats s reqs).db
serve_all-IsTable formats s [] t = t
serve_all-IsTable formats s ((auth, req) ∷ reqs) t =
    let (ops, lawful, e) = serve-run formats s auth req in
    serve_all-IsTable formats (serve formats s auth req) reqs
      (subst IsTable (sym e) (run-IsTable s.db ops t))
