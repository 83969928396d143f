-- ===== src/Panel/Rules/Create/Admission.antt =====
-- crates/panel-server/src/routes/rules.rs: what an admitted creation has passed.
use emorelay.Base.{ℕ, ◌≡◌, true, not, Option, none, some, [], String, unwrap_or, is_some}
use emorelay.Base.Result.{ok, after, after->>=, after-guard, after-ok_or}
use emorelay.Panel.Db.{Db, DbRule, Node, find_node}
use emorelay.Panel.Settings.{reserved_ports}
use emorelay.Panel.Ports.{choose_port, ensure_no_protocol_conflict, insert_rule}
use emorelay.Panel.Dispatch.{dispatch_rule_apply}
use emorelay.Panel.Rules.{Formats, AuthUser, User, Site, find_user, find_by_id, record_audit}
use emorelay.Panel.Rules.Targets.{validate_targets}
use emorelay.Panel.Rules.Create.{
  CreateRuleRequest, owner_of, check_request, check_grant, check_tunnel_quota, check_profile,
  new_row, is_reached, rules_of, write_settings, is_true, finish, place_rule, create,
}

module _ (formats : Formats) (s : Site) (auth : AuthUser) where
  -- The site once the request's rows are written.
  abbrev pub stored_site : Db → Site
  stored_site db = record s { db = db }

  abbrev pub finished_site : Db → ℕ → String → DbRule → Site
  finished_site db id action rule = record s {
    db = db;
    audit = record_audit s auth action id;
    dispatcher = dispatch_rule_apply formats.targets_from_str db s.dispatcher rule;
  }

  pub finish-cases :
      (db : Db) (id : ℕ) (action : String) (P : Site → Type 0)
      → P s
      → ((rule : DbRule)
          → find_by_id (stored_site db) id ≡ some rule
          → P (finished_site db id action rule))
      → P (after s (finish formats (stored_site db) auth id action))
  unfolding finish
  finish-cases db id action P start k = after-ok_or s P start (find_by_id (stored_site db) id) _ _ k

  module _ (req : CreateRuleRequest) where
    -- What the second half of a creation has found.
    pub record Placed (owner_id : ℕ) (node : Node) : Type 0 where
      pub owner : User
      pub user_ok : find_user s owner_id ≡ some owner
      pub quota_ok :
          not (is_reached owner.forward_rules_quota (rules_of owner_id s.db.rules)) ≡ true
      pub tunnel_quota_ok : check_tunnel_quota s owner_id req.tunnel_id ≡ ok tt
      pub profile : Option ℕ
      pub profile_ok : check_profile s req.bandwidth_profile_id ≡ ok profile
      pub port : ℕ
      pub port_ok :
          choose_port s.db node req.listen_ip req.protocol
            (reserved_ports formats.ports_from_str s.reserved)
            req.listen_port
            (is_some req.tunnel_id)
            auth.is_admin
          ≡ some port
      pub no_conflict :
          ensure_no_protocol_conflict s.db.rules req.node_id req.listen_ip port req.protocol none
          ≡ true
      pub inserted : Db
      pub insert_ok :
          insert_rule s.db (new_row req owner_id profile port s.db.next_rule_id) ≡ some inserted

    abbrev pub created_db : Db → Option String × String → Db
    created_db inserted targets =
        write_settings inserted s.db.next_rule_id targets (is_true req.send_proxy_protocol)

    place_rule-cases :
        (owner_id : ℕ) (node : Node) (targets : Option String × String) (P : Site → Type 0)
        → P s
        → ((a : Placed owner_id node) (rule : DbRule)
            → find_by_id (stored_site (created_db a.inserted targets)) s.db.next_rule_id ≡ some rule
            → P (
                finished_site (created_db a.inserted targets) s.db.next_rule_id "rule.create" rule))
        → P (after s (place_rule formats s auth req owner_id node targets))
    unfolding place_rule
    place_rule-cases owner_id node targets P start k =
        after-ok_or s P start (find_user s owner_id) _ _ (λ owner f.
          after-guard s P start
            (not (is_reached owner.forward_rules_quota (rules_of owner_id s.db.rules))) _ _
            (λ g. after->>= s P start (check_tunnel_quota s owner_id req.tunnel_id) _ (λ w h.
              after->>= s P start (check_profile s req.bandwidth_profile_id) _ (λ profile i.
                after-ok_or s P start
                  (choose_port s.db node req.listen_ip req.protocol
                    (reserved_ports formats.ports_from_str s.reserved) req.listen_port
                    (is_some req.tunnel_id) auth.is_admin)
                  _ _
                  (λ port j.
                    after-guard s P start
                      (ensure_no_protocol_conflict s.db.rules req.node_id req.listen_ip port
                        req.protocol none)
                      _ _
                      (λ l.
                        after-ok_or s P start
                          (insert_rule s.db (new_row req owner_id profile port s.db.next_rule_id)) _
                          _
                          (λ db m.
                            finish-cases (created_db db targets) s.db.next_rule_id "rule.create" P
                              start
                              (k (record {
                                owner = owner;
                                user_ok = f;
                                quota_ok = g;
                                tunnel_quota_ok = h;
                                profile = profile;
                                profile_ok = i;
                                port = port;
                                port_ok = j;
                                no_conflict = l;
                                inserted = db;
                                insert_ok = m;
                              })))))))))

    -- What all the checks of a creation have found.
    pub record Admitted : Type 0 where
      pub owner_id : ℕ
      pub owner_ok : owner_of s auth req.user_id ≡ ok owner_id
      pub request_ok : check_request formats auth.is_admin req ≡ ok tt
      pub targets : Option String × String
      pub targets_ok :
          validate_targets formats (unwrap_or req.extra_targets []) req.lb_strategy auth.is_admin
          ≡ ok targets
      pub node : Node
      pub node_ok : find_node s.db req.node_id ≡ some node
      pub grant_ok : check_grant s auth.is_admin owner_id req.node_id req.tunnel_id ≡ ok tt
      pub placed : Placed owner_id node

    -- A creation is refused and changes nothing, or it has passed every check.
    pub create-cases :
        (P : Site → Type 0)
        → P s
        → ((a : Admitted) (rule : DbRule)
            → find_by_id (stored_site (created_db a.placed.inserted a.targets)) s.db.next_rule_id
              ≡ some rule
            → P (
                finished_site
                  (created_db a.placed.inserted a.targets)
                  s.db.next_rule_id
                  "rule.create"
                  rule))
        → P (after s (create formats s auth req))
    unfolding create
    create-cases P start k = after->>= s P start (owner_of s auth req.user_id) _ (λ owner_id a.
        after->>= s P start (check_request formats auth.is_admin req) _ (λ u b.
          after->>= s P start
            (validate_targets formats (unwrap_or req.extra_targets []) req.lb_strategy
              auth.is_admin)
            _
            (λ targets c. after-ok_or s P start (find_node s.db req.node_id) _ _ (λ node d.
              after->>= s P start (check_grant s auth.is_admin owner_id req.node_id req.tunnel_id) _
                (λ v e. place_rule-cases owner_id node targets P start (λ p. k (record {
                  owner_id = owner_id;
                  owner_ok = a;
                  request_ok = b;
                  targets = targets;
                  targets_ok = c;
                  node = node;
                  node_ok = d;
                  grant_ok = e;
                  placed = p;
                })))))))
