-- ===== src/Panel/Rules/Operations.antt =====
-- crates/panel-server/src/routes/rules.rs: the writes of create and update as operations on the table.
use emorelay.Base.{
  ℕ, ◌≡◌, refl, sym, ap, subst, ◌∙◌, Bool, true, false, not, ◌||◌, Option, none, some, List, [],
  ◌∷◌, ◌++◌, String, str_eq, is_some, contains, ltb, if◌then◌else◌, unwrap_or, arith, Bool-cases,
  inl, inr,
}
use emorelay.Panel.Db.{Db, DbRule, Node, Fields, with_fields, update_rule, coalesce}
use emorelay.Panel.Settings.{reserved_ports}
use emorelay.Panel.Ports.{
  create_checked, update_checked, insert_rule, ensure_no_protocol_conflict, is_unique,
}
use emorelay.Panel.Ports.Table.{found-id}
use emorelay.Panel.Ports.History.{Op, creates, updates, retargets, proxies, prefers, step, run}
use emorelay.Panel.Rules.{Formats, AuthUser, Site}
use emorelay.Panel.Rules.Create.{CreateRuleRequest, new_row, write_settings}
use emorelay.Panel.Rules.Update.{UpdateRuleRequest, fields_of, in_pool, write_changes}
use emorelay.Panel.Rules.Create.Admission.{created_db}
use emorelay.Panel.Rules.Update.Admission.{updated_db}
use emorelay.Panel.Rules.Create.Admission as Creation
use emorelay.Panel.Rules.Update.Admission as Change

-- The operations after the insertion, and after the update of the fields.
abbrev pub settings_ops : ℕ → Option String × String → Bool → List Op
settings_ops id (extra, strat) proxy =
    (if is_some extra || not (str_eq strat "fifo") then retargets id extra strat ∷ [] else [])
    ++ (if proxy then proxies id true ∷ [] else [])

abbrev pub target_ops : ℕ → Option (Option String × String) → List Op
target_ops id none = []
target_ops id (some (extra, strat)) = retargets id extra strat ∷ []

abbrev pub proxy_ops : ℕ → Option Bool → List Op
proxy_ops id none = []
proxy_ops id (some b) = proxies id b ∷ []

abbrev pub remote_af_ops : ℕ → Option String → List Op
remote_af_ops id none = []
remote_af_ops id (some af) = prefers id af ∷ []

abbrev pub change_ops : ℕ → Option (Option String × String) → Option Bool → Option String → List Op
change_ops id targets proxy af =
    target_ops id targets ++ (proxy_ops id proxy ++ remote_af_ops id af)

pub settings-run :
    (db : Db) (id : ℕ) (t : Option String × String) (proxy : Bool)
    → write_settings db id t proxy ≡ run db (settings_ops id t proxy)
unfolding write_settings
settings-run db id (extra, strat) true =
    elim (Bool-cases (is_some extra || not (str_eq strat "fifo"))) [
      | inl e ↦ rw (e, if◌then◌else◌) refl
      | inr e ↦ rw (e, if◌then◌else◌) refl
    ]
settings-run db id (extra, strat) false =
    elim (Bool-cases (is_some extra || not (str_eq strat "fifo"))) [
      | inl e ↦ rw (e, if◌then◌else◌) refl
      | inr e ↦ rw (e, if◌then◌else◌) refl
    ]

pub changes-run :
    (db : Db) (id : ℕ) (req : UpdateRuleRequest) (t : Option (Option String × String))
    (proxy : Option Bool) (af : Option String)
    → req.send_proxy_protocol ≡ proxy
    → req.remote_af ≡ af
    → write_changes db id req t ≡ run db (change_ops id t proxy af)
unfolding write_changes
changes-run db id req none none none a b = rw (a, b) refl
changes-run db id req none none (some af) a b = rw (a, b) refl
changes-run db id req none (some p) none a b = rw (a, b) refl
changes-run db id req none (some p) (some af) a b = rw (a, b) refl
changes-run db id req (some (x, y)) none none a b = rw (a, b) refl
changes-run db id req (some (x, y)) none (some af) a b = rw (a, b) refl
changes-run db id req (some (x, y)) (some p) none a b = rw (a, b) refl
changes-run db id req (some (x, y)) (some p) (some af) a b = rw (a, b) refl

create_checked-inserted :
    (db db' : Db) (r : DbRule)
    → ensure_no_protocol_conflict db.rules r.node_id r.listen_ip r.listen_port r.protocol none
      ≡ true
    → insert_rule db r ≡ some db'
    → create_checked db r ≡ some db'
unfolding create_checked
create_checked-inserted db db' r e f = rw (e, if◌then◌else◌) f

update_checked-accepted :
    (db : Db) (node : Node) (reserved : List ℕ) (existing : DbRule) (u : Fields)
    → in_pool node (with_fields u existing).listen_port ≡ true
    → not (contains reserved (with_fields u existing).listen_port) ≡ true
    → ensure_no_protocol_conflict db.rules existing.node_id
        (with_fields u existing).listen_ip
        (with_fields u existing).listen_port
        existing.protocol
        (some existing.id)
      ≡ true
    → is_unique db.rules (with_fields u existing) ≡ true
    → update_checked db node reserved existing u
      ≡ some (update_rule (with_fields u) db existing.id).0
unfolding update_checked in_pool
update_checked-accepted db node reserved existing u a b c d =
    let new = with_fields u existing in
    let out = ltb new.listen_port node.port_pool_min || ltb node.port_pool_max new.listen_port in
    let e : out ≡ false = ground (arith, a) in
    let f : contains reserved new.listen_port ≡ false = ground (arith, b) in
    rw (e, f, c, d, if◌then◌else◌) refl

module _ (formats : Formats) (s : Site) (auth : AuthUser) where
  pub creation-step :
      (r : CreateRuleRequest) (a : Creation.Admitted formats s auth r)
      → step s.db (creates (new_row r a.owner_id a.placed.profile a.placed.port s.db.next_rule_id))
        ≡ a.placed.inserted
  unfolding new_row
  creation-step r a =
      ap (λ o. unwrap_or o s.db)
        (create_checked-inserted s.db a.placed.inserted
          (new_row r a.owner_id a.placed.profile a.placed.port s.db.next_rule_id)
          a.placed.no_conflict a.placed.insert_ok)

  pub change-step :
      (id : ℕ) (r : UpdateRuleRequest) (a : Change.Admitted formats s auth id r)
      → step s.db (
          updates a.node
            (reserved_ports formats.ports_from_str s.reserved)
            id
            (fields_of r a.profile))
        ≡ (update_rule (with_fields (fields_of r a.profile)) s.db id).0
  unfolding with_fields fields_of
  change-step id r a =
      let same : a.existing.id ≡ id = (found-id id s.db.rules a.existing a.found).0 in
      rw (a.found, step)
        (ap (λ o. unwrap_or o s.db)
            (update_checked-accepted s.db a.node (reserved_ports formats.ports_from_str s.reserved)
              a.existing (fields_of r a.profile) a.pool_ok a.reserved_ok
              (subst
                (λ i.
                  ensure_no_protocol_conflict s.db.rules a.existing.node_id
                    (coalesce r.listen_ip a.existing.listen_ip)
                    (coalesce r.listen_port a.existing.listen_port) a.existing.protocol (some i)
                  ≡ true)
                (sym same) a.no_conflict)
              a.unique)
          ∙ ap (λ i. (update_rule (with_fields (fields_of r a.profile)) s.db i).0) same)
