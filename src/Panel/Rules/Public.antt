-- ===== src/Panel/Rules/Public.antt =====
-- crates/panel-server/src/routes/rules.rs: no internal address among the targets of ordinary users.
use emorelay.Base.{
  ℕ, ◌≡◌, sym, ap, subst, ◌∙◌, Bool, true, false, not, ◌&&◌, ◌||◌, Option, none, some, List, [],
  ◌∷◌, String, ◌==◌, is_some, unwrap_or, ltb, length, if◌then◌else◌, All, All-append, arith,
  Bool-cases, Option-cases, inl, inr,
}
use emorelay.Base.Text.{trim}
use emorelay.Base.Result.{ok, require-ok, require->>-ok, >>=-ok, ok_injective}
use emorelay.Proto.{TargetEndpoint}
use emorelay.Panel.Db.{Db, DbRule, with_fields, update_rule, update_rows}
use emorelay.Panel.Util.{is_internal_target_ip}
use emorelay.Panel.Dispatch.{parse_extra_targets}
use emorelay.Panel.Rules.{
  Formats, AuthUser, Site, ApiError, bad_request, bad_strategy, too_many_targets,
  tunnel_extra_targets,
}
use emorelay.Panel.Rules.Targets.{
  validate_targets, target_checks, trim_hosts, is_strategy, max_extra_targets, stored_targets,
}
use emorelay.Panel.Rules.Create.{CreateRuleRequest, check_request, request_checks, new_row, is_true}
use emorelay.Panel.Rules.Update.{
  UpdateRuleRequest, check_change, change_checks, check_targets, new_targets, fields_of, holds_for,
}
use emorelay.Panel.Rules.Create.Admission as Creation
use emorelay.Panel.Rules.Handlers.{Request, serve, serve_all}
use emorelay.Panel.Rules.Handlers.Cases.{serve-cases}
use emorelay.Panel.Rules.Writes.{
  guard-ok, insert_rule-rules, write_settings-cases, write_changes-cases,
}

module _ (formats : Formats) where
  abbrev PublicHosts : List TargetEndpoint → Type 0
  PublicHosts ts = All (λ t. is_internal_target_ip formats.parse_ip t.host ≡ false) ts

  -- Neither the target nor an extra target is the literal of an internal address.
  abbrev pub IsPublic : DbRule → Type 0
  IsPublic r =
      (is_internal_target_ip formats.parse_ip r.target_host ≡ false)
      × PublicHosts (parse_extra_targets formats.targets_from_str r.extra_targets)

  checked-PublicHosts :
      (ts : List TargetEndpoint)
      → All (λ (g : Bool × ApiError). g.0 ≡ true) (target_checks formats false ts)
      → PublicHosts (trim_hosts ts)
  checked-PublicHosts [] h = tt
  checked-PublicHosts (t ∷ ts) (a, (b, (c, h))) = (ground (arith, c), checked-PublicHosts ts h)

  AllPublic-update_rows :
      (f : DbRule → DbRule) (id : ℕ) (rules : List DbRule)
      → ((r : DbRule) → IsPublic r → IsPublic (f r))
      → All IsPublic rules
      → All IsPublic (update_rows f id rules).0
  AllPublic-update_rows f id [] k a = tt
  AllPublic-update_rows f id (r ∷ rules) k (x, a) =
      elim (Bool-cases (r.id == id && not r.deleted)) [
        | inl e ↦ rw (e, if◌then◌else◌) (k r x, AllPublic-update_rows f id rules k a)
        | inr e ↦ rw (e, if◌then◌else◌) (x, AllPublic-update_rows f id rules k a)
      ]

  module _
      (from_to : (ts : List TargetEndpoint)
        → formats.targets_from_str (formats.targets_to_string ts) ≡ some ts) where
    stored-PublicHosts :
        (ts : List TargetEndpoint)
        → PublicHosts (trim_hosts ts)
        → PublicHosts (parse_extra_targets formats.targets_from_str (stored_targets formats ts))
    unfolding parse_extra_targets
    stored-PublicHosts [] h = tt
    stored-PublicHosts (t ∷ ts) h = rw (from_to (trim_hosts (t ∷ ts))) h

    validate_targets-PublicHosts :
        (extra : List TargetEndpoint) (lb : Option String) (x : Option String × String)
        → validate_targets formats extra lb false ≡ ok x
        → PublicHosts (parse_extra_targets formats.targets_from_str x.0)
    unfolding validate_targets
    validate_targets-PublicHosts extra lb x h =
        let (passed, e) =
          require->>-ok
            ((is_strategy (unwrap_or lb "fifo"), bad_request bad_strategy)
              ∷ (not (ltb max_extra_targets (length extra)), bad_request too_many_targets)
              ∷ target_checks formats false extra)
            (ok (stored_targets formats extra, unwrap_or lb "fifo")) x h in
        subst
          (λ (y : Option String × String).
            PublicHosts (parse_extra_targets formats.targets_from_str y.0))
          (ok_injective (stored_targets formats extra, unwrap_or lb "fifo") x e)
          (stored-PublicHosts extra (checked-PublicHosts extra passed.1.1))

    check_targets-PublicHosts :
        (existing : DbRule) (req : UpdateRuleRequest) (x : Option String × String)
        → check_targets formats false existing req ≡ ok (some x)
        → PublicHosts (parse_extra_targets formats.targets_from_str x.0)
    unfolding check_targets
    check_targets-PublicHosts existing req x h =
        let new = new_targets formats false existing req in
        elim (Bool-cases (is_some req.extra_targets || is_some req.lb_strategy)) [
          | inl e ↦
              let chosen =
                (guard-ok _ (bad_request tunnel_extra_targets) _ (some x)
                  (sym (ap (λ b. if b then new else ok none) e) ∙ h)).1 in
              let (y, valid, f) =
                >>=-ok
                  (validate_targets formats (unwrap_or req.extra_targets [])
                    (some (unwrap_or req.lb_strategy existing.lb_strategy)) false)
                  (λ targets. ok (some targets)) (some x) chosen in
              subst
                (λ (z : Option String × String).
                  PublicHosts (parse_extra_targets formats.targets_from_str z.0))
                (ap (λ o. unwrap_or o x) (ok_injective (some y) (some x) f))
                (validate_targets-PublicHosts (unwrap_or req.extra_targets [])
                  (some (unwrap_or req.lb_strategy existing.lb_strategy)) y valid)
          | inr e ↦ absurd (
              ground (
                arith,
                ok_injective none (some x) (sym (ap (λ b. if b then new else ok none) e) ∙ h),
              ))
        ]

    module _ (s : Site) (auth : AuthUser) (user : auth.is_admin ≡ false)
        (before : All IsPublic s.db.rules) where
      created-AllPublic :
          (r : CreateRuleRequest) (a : Creation.Admitted formats s auth r)
          → All IsPublic a.placed.inserted.rules
      unfolding new_row check_request parse_extra_targets
      created-AllPublic r a =
          let row = new_row r a.owner_id a.placed.profile a.placed.port s.db.next_rule_id in
          let passed =
            require-ok (request_checks formats false r)
              (subst (λ b. check_request formats b r ≡ ok tt) user a.request_ok) in
          let host : not (is_internal_target_ip formats.parse_ip (trim r.target_host)) ≡ true =
            passed.1.1.1.1.1.1.1.1.1.0 in
          subst (All IsPublic)
            (sym (insert_rule-rules s.db a.placed.inserted row a.placed.insert_ok))
            (All-append IsPublic s.db.rules (row ∷ []) before ((ground (arith, host), tt), tt))

      target-public :
          (r : UpdateRuleRequest) (existing : DbRule) (profile : Option ℕ)
          → check_change formats false existing r ≡ ok tt
          → (o : DbRule) → IsPublic o
          → IsPublic (with_fields (fields_of r profile) o)
      unfolding check_change with_fields fields_of
      target-public r existing profile h o (t, ts) =
          let passed = require-ok (change_checks formats false existing r) h in
          elim (Option-cases r.target_host) [
            | inl e ↦ rw e (t, ts)
            | inr (host, e) ↦
                let public : not (is_internal_target_ip formats.parse_ip (trim host)) ≡ true =
                  ap (holds_for (λ x. not (is_internal_target_ip formats.parse_ip (trim x))))
                    (sym e)
                  ∙ passed.1.1.1.0 in
                rw e (ground (arith, public), ts)
          ]

      abbrev P : Db → Type 0
      P db = All IsPublic db.rules

      changed-targets :
          (r : UpdateRuleRequest) (existing : DbRule) (t : Option (Option String × String))
          (x : Option String × String)
          → t ≡ some x
          → check_targets formats false existing r ≡ ok t
          → check_targets formats false existing r ≡ ok (some x)
      changed-targets r existing t x e h = h ∙ ap ok e

      step-AllPublic :
          (f : DbRule → DbRule) (id : ℕ) (d : Db)
          → ((r : DbRule) → IsPublic r → IsPublic (f r))
          → All IsPublic d.rules
          → All IsPublic (update_rule f d id).0.rules
      step-AllPublic f id d k a = AllPublic-update_rows f id d.rules k a

      serve-AllPublic : (req : Request) → All IsPublic (serve formats s auth req).db.rules
      serve-AllPublic req =
          serve-cases formats s auth P before req
            (λ r a.
              let extra =
                validate_targets-PublicHosts (unwrap_or r.extra_targets []) r.lb_strategy a.targets
                  (subst
                    (λ b.
                      validate_targets formats (unwrap_or r.extra_targets []) r.lb_strategy b
                      ≡ ok a.targets)
                    user a.targets_ok) in
              write_settings-cases P s.db.next_rule_id a.placed.inserted a.targets.0 a.targets.1
                (is_true r.send_proxy_protocol) (created-AllPublic r a)
                (λ d. step-AllPublic _ s.db.next_rule_id d (λ o p. (p.0, extra)))
                (λ x d. step-AllPublic _ s.db.next_rule_id d (λ o p. p)))
            (λ id r a.
              write_changes-cases P id (update_rule (with_fields (fields_of r a.profile)) s.db id).0
                r a.targets
                (step-AllPublic (with_fields (fields_of r a.profile)) id s.db
                  (target-public r a.existing a.profile
                    (subst (λ b. check_change formats b a.existing r ≡ ok tt) user a.change_ok))
                  before)
                (λ x e d. step-AllPublic _ id d (λ o p. (
                  p.0,
                  check_targets-PublicHosts a.existing r x (
                      changed-targets r a.existing a.targets x e (
                        subst (λ b. check_targets formats b a.existing r ≡ ok a.targets) user
                          a.targets_ok)),
                )))
                (λ b e d. step-AllPublic _ id d (λ o p. p))
                (λ x d. step-AllPublic _ id d (λ o p. p)))
            (λ id t. step-AllPublic _ id s.db (λ o p. p) before)
            (λ id on t. step-AllPublic _ id s.db (λ o p. p) before)

    -- Through any requests of users who are no administrators, served or refused: if no rule has the
    -- literal of an internal address as its target or as an extra target, none gets one. The JSON of
    -- the extra targets must read back as it was written.
    pub serve_all-AllPublic :
        (s : Site) (reqs : List (AuthUser × Request))
        → All (λ (q : AuthUser × Request). q.0.is_admin ≡ false) reqs
        → All IsPublic s.db.rules
        → All IsPublic (serve_all formats s reqs).db.rules
    serve_all-AllPublic s [] users before = before
    serve_all-AllPublic s ((auth, req) ∷ reqs) (user, users) before =
        serve_all-AllPublic (serve formats s auth req) reqs users
          (serve-AllPublic s auth user before req)
