-- ===== src/Panel/Rules/Update/Admission.antt =====
-- crates/panel-server/src/routes/rules.rs: what an admitted update has passed.
use emorelay.Base.{ℕ, ◌≡◌, true, not, ◌||◌, Option, some, String, ◌==◌, contains}
use emorelay.Base.Result.{ok, after, after->>=, after-guard, after-ok_or}
use emorelay.Panel.Db.{Db, DbRule, Node, with_fields, update_rule, coalesce, find_rule, find_node}
use emorelay.Panel.Settings.{reserved_ports}
use emorelay.Panel.Ports.{ensure_no_protocol_conflict, is_unique}
use emorelay.Panel.Rules.{Formats, AuthUser, Site, find_by_id, ensure_can_touch}
use emorelay.Panel.Rules.Create.Admission.{stored_site, finished_site, finish-cases}
use emorelay.Panel.Rules.Update.{
  UpdateRuleRequest, redirecting, still_granted, check_change, check_profile_change, check_targets,
  fields_of, in_pool, write_changes, update,
}

module _ (formats : Formats) (s : Site) (auth : AuthUser) (id : ℕ) (req : UpdateRuleRequest) where
  -- What the checks of an update have found.
  pub record Admitted : Type 0 where
    pub existing : DbRule
    pub found : find_rule s.db id ≡ some existing
    pub touch_ok : ensure_can_touch auth existing ≡ ok tt
    pub grant_ok : (auth.is_admin || (not (redirecting req) || still_granted s existing)) ≡ true
    pub change_ok : check_change formats auth.is_admin existing req ≡ ok tt
    pub profile : Option ℕ
    pub profile_ok : check_profile_change s auth.is_admin req.bandwidth_profile_id ≡ ok profile
    pub node : Node
    pub node_ok : find_node s.db existing.node_id ≡ some node
    pub pool_ok : in_pool node (coalesce req.listen_port existing.listen_port) ≡ true
    pub reserved_ok :
        not (
          contains
            (reserved_ports formats.ports_from_str s.reserved)
            (coalesce req.listen_port existing.listen_port))
        ≡ true
    pub no_conflict :
        ensure_no_protocol_conflict s.db.rules existing.node_id
          (coalesce req.listen_ip existing.listen_ip)
          (coalesce req.listen_port existing.listen_port)
          existing.protocol
          (some id)
        ≡ true
    pub targets : Option (Option String × String)
    pub targets_ok : check_targets formats auth.is_admin existing req ≡ ok targets
    pub unique : is_unique s.db.rules (with_fields (fields_of req profile) existing) ≡ true

  abbrev pub updated_db : Option ℕ → Option (Option String × String) → Db
  updated_db profile targets =
      write_changes (update_rule (with_fields (fields_of req profile)) s.db id).0 id req targets

  -- An update is refused and changes nothing, or it has passed every check.
  pub update-cases :
      (P : Site → Type 0)
      → P s
      → ((a : Admitted) (rule : DbRule)
          → find_by_id (stored_site formats s auth (updated_db a.profile a.targets)) id ≡ some rule
          → P (finished_site formats s auth (updated_db a.profile a.targets) id "rule.update" rule))
      → P (after s (update formats s auth id req))
  unfolding update
  update-cases P start k = after-ok_or s P start (find_rule s.db id) _ _ (λ existing a.
      let port = coalesce req.listen_port existing.listen_port in
      after->>= s P start (ensure_can_touch auth existing) _ (λ u b.
        after-guard s P start (auth.is_admin || (not (redirecting req) || still_granted s existing))
          _ _
          (λ c. after->>= s P start (check_change formats auth.is_admin existing req) _ (λ v d.
            after->>= s P start (check_profile_change s auth.is_admin req.bandwidth_profile_id) _
              (λ profile e. after-ok_or s P start (find_node s.db existing.node_id) _ _ (λ node f.
                after-guard s P start (in_pool node port) _ _ (λ g.
                  after-guard s P start
                    (not (contains (reserved_ports formats.ports_from_str s.reserved) port)) _ _
                    (λ h.
                      after-guard s P start
                        (ensure_no_protocol_conflict s.db.rules existing.node_id
                          (coalesce req.listen_ip existing.listen_ip) port existing.protocol
                          (some id))
                        _ _
                        (λ i.
                          after->>= s P start (check_targets formats auth.is_admin existing req) _
                            (λ targets j.
                              after-guard s P start
                                (is_unique s.db.rules
                                  (with_fields (fields_of req profile) existing))
                                _ _
                                (λ l.
                                  after-guard s P start
                                    (not (
                                      (update_rule (with_fields (fields_of req profile)) s.db id).1
                                      == 0))
                                    _ _
                                    (λ m.
                                      finish-cases formats s auth (updated_db profile targets) id
                                        "rule.update" P start
                                        (k (record {
                                          existing = existing;
                                          found = a;
                                          touch_ok = b;
                                          grant_ok = c;
                                          change_ok = d;
                                          profile = profile;
                                          profile_ok = e;
                                          node = node;
                                          node_ok = f;
                                          pool_ok = g;
                                          reserved_ok = h;
                                          no_conflict = i;
                                          targets = targets;
                                          targets_ok = j;
                                          unique = l;
                                        }))))))))))))))
