-- ===== src/Panel/Rules/Managed.antt =====
-- crates/panel-server/src/routes/rules.rs: the settings that only an administrator may change.
use emorelay.Base.{
  ℕ, ◌≡◌, refl, sym, ap, ap₂, subst, ◌∙◌, Bool, true, false, not, ◌&&◌, ◌||◌, Option, none, some,
  List, [], ◌∷◌, ◌++◌, is_some, if◌then◌else◌, arith, Bool-cases, inl, inr, ◌==◌,
}
use emorelay.Base.Signed.{ℤ}
use emorelay.Base.Result.{ok, require-ok, ok_injective}
use emorelay.Panel.Db.{Db, DbRule, with_fields, update_rule, update_rows}
use emorelay.Panel.Rules.{Formats, AuthUser, Site}
use emorelay.Panel.Rules.Create.{
  CreateRuleRequest, check_request, request_checks, check_profile, new_row, is_true, sets_managed,
}
use emorelay.Panel.Rules.Update.{
  UpdateRuleRequest, check_change, change_checks, check_profile_change, fields_of,
}
use emorelay.Panel.Rules.Create.Admission as Creation
use emorelay.Panel.Rules.Update.Admission as Change
use emorelay.Panel.Rules.Handlers.{Request, serve}
use emorelay.Panel.Rules.Handlers.Cases.{serve-cases}
use emorelay.Panel.Rules.Writes.{insert_rule-rules, write_settings-cases, write_changes-cases}

-- The columns that an administrator manages: the profile, the limit of connections and the PROXY header.
abbrev pub managed : DbRule → Option ℕ × Option ℤ × Bool
managed r = (r.bandwidth_profile_id, r.max_connections, r.send_proxy_protocol)

abbrev pub is_managed : DbRule → Bool
is_managed r =
    is_some r.bandwidth_profile_id || (is_some r.max_connections || r.send_proxy_protocol)

-- The rules with such a setting, and the settings.
abbrev pub managed_rules : List DbRule → List (ℕ × (Option ℕ × Option ℤ × Bool))
managed_rules [] = []
managed_rules (r ∷ rules) =
    if is_managed r then (r.id, managed r) ∷ managed_rules rules else managed_rules rules

-- A change that keeps the id and the managed columns.
abbrev Keeps : (DbRule → DbRule) → Type 0
Keeps f = (r : DbRule) → ((f r).id ≡ r.id) × (managed (f r) ≡ managed r)

managed_rules-cons :
    (r o : DbRule) (rules others : List DbRule)
    → r.id ≡ o.id
    → managed r ≡ managed o
    → managed_rules rules ≡ managed_rules others
    → managed_rules (r ∷ rules) ≡ managed_rules (o ∷ others)
managed_rules-cons r o rules others i m e =
    ap₂
      (λ j (p : (Option ℕ × Option ℤ × Bool) × List (ℕ × (Option ℕ × Option ℤ × Bool))).
        if is_some p.0.0 || (is_some p.0.1 || p.0.2) then (j, p.0) ∷ p.1 else p.1)
      i (ap₂ (λ a b. (a, b)) m e)

managed_rules-update_rows :
    (f : DbRule → DbRule) (id : ℕ) (rules : List DbRule)
    → Keeps f
    → managed_rules (update_rows f id rules).0 ≡ managed_rules rules
managed_rules-update_rows f id [] k = refl
managed_rules-update_rows f id (r ∷ rules) k =
    let rest = managed_rules-update_rows f id rules k in
    elim (Bool-cases (r.id == id && not r.deleted)) [
      | inl e ↦
          rw e (managed_rules-cons (f r) r (update_rows f id rules).0 rules (k r).0 (k r).1 rest)
      | inr e ↦ rw e (managed_rules-cons r r (update_rows f id rules).0 rules refl refl rest)
    ]

managed_rules-append :
    (rules : List DbRule) (r : DbRule)
    → is_managed r ≡ false
    → managed_rules (rules ++ (r ∷ [])) ≡ managed_rules rules
managed_rules-append [] r e = rw (e, if◌then◌else◌) refl
managed_rules-append (o ∷ rules) r e =
    managed_rules-cons o o (rules ++ (r ∷ [])) rules refl refl (managed_rules-append rules r e)

none_of : {A : Type 0} (o : Option A) → not (is_some o) ≡ true → o ≡ none
none_of none h = refl
none_of (some a) h = absurd (ground (arith, h))

request-unmanaged :
    (formats : Formats) (req : CreateRuleRequest)
    → check_request formats false req ≡ ok tt
    → (req.bandwidth_profile_id ≡ none)
      × (req.max_connections ≡ none)
      × (req.send_proxy_protocol ≡ none)
unfolding check_request
request-unmanaged formats req h =
    let e : not (sets_managed req) ≡ true = (require-ok (request_checks formats false req) h).0 in
    (
      none_of req.bandwidth_profile_id (ground (arith, e)),
      none_of req.max_connections (ground (arith, e)),
      none_of req.send_proxy_protocol (ground (arith, e)),
    )

change-managed :
    (formats : Formats) (existing : DbRule) (req : UpdateRuleRequest)
    → check_change formats false existing req ≡ ok tt
    → (req.max_connections ≡ none) × (req.send_proxy_protocol ≡ none)
unfolding check_change
change-managed formats existing req h =
    let passed = require-ok (change_checks formats false existing req) h in
    (
      none_of req.max_connections passed.1.1.1.1.1.0,
      none_of req.send_proxy_protocol passed.1.1.1.1.1.1.0,
    )

module _ (formats : Formats) (s : Site) (auth : AuthUser) (user : auth.is_admin ≡ false) where
  admitted-unmanaged :
      (r : CreateRuleRequest) (a : Creation.Admitted formats s auth r)
      → (r.bandwidth_profile_id ≡ none)
        × (r.max_connections ≡ none)
        × (r.send_proxy_protocol ≡ none)
  admitted-unmanaged r a =
      request-unmanaged formats r (subst (λ b. check_request formats b r ≡ ok tt) user a.request_ok)

  new_row-unmanaged :
      (r : CreateRuleRequest) (a : Creation.Admitted formats s auth r) (owner_id port id : ℕ)
      → is_managed (new_row r owner_id a.placed.profile port id) ≡ false
  unfolding new_row check_profile
  new_row-unmanaged r a owner_id port id =
      let (p, m, x) = admitted-unmanaged r a in
      let q : a.placed.profile ≡ none =
        sym (
          ok_injective none a.placed.profile
            (ap (check_profile s) (sym p) ∙ a.placed.profile_ok)) in
      rw (q, m) refl

  no_profile :
      (asked : Option ℤ) (profile : Option ℕ)
      → check_profile_change s false asked ≡ ok profile
      → profile ≡ none
  unfolding check_profile_change
  no_profile none profile h = sym (ok_injective none profile h)
  no_profile (some pid) profile h = cc

  change-unmanaged :
      (id : ℕ) (r : UpdateRuleRequest) (a : Change.Admitted formats s auth id r)
      → (a.profile ≡ none) × (r.max_connections ≡ none) × (r.send_proxy_protocol ≡ none)
  change-unmanaged id r a =
      let (m, x) =
        change-managed formats a.existing r
          (subst (λ b. check_change formats b a.existing r ≡ ok tt) user a.change_ok) in
      (
        no_profile r.bandwidth_profile_id a.profile (
            subst (λ b. check_profile_change s b r.bandwidth_profile_id ≡ ok a.profile) user
              a.profile_ok),
        m,
        x,
      )

  fields_of-Keeps :
      (id : ℕ) (r : UpdateRuleRequest) (a : Change.Admitted formats s auth id r)
      → Keeps (with_fields (fields_of r a.profile))
  unfolding with_fields fields_of
  fields_of-Keeps id r a o = let (p, m, x) = change-unmanaged id r a in rw (p, m) (refl, refl)

  abbrev Same : Db → Type 0
  Same db = managed_rules db.rules ≡ managed_rules s.db.rules

  created-Same :
      (r : CreateRuleRequest) (a : Creation.Admitted formats s auth r) → Same a.placed.inserted
  unfolding new_row
  created-Same r a =
      let row = new_row r a.owner_id a.placed.profile a.placed.port s.db.next_rule_id in
      ap managed_rules (insert_rule-rules s.db a.placed.inserted row a.placed.insert_ok)
      ∙ managed_rules-append s.db.rules row
          (new_row-unmanaged r a a.owner_id a.placed.port s.db.next_rule_id)

  step-Same :
      (f : DbRule → DbRule) (id : ℕ) (d : Db) → Keeps f → Same d → Same (update_rule f d id).0
  step-Same f id d k e = managed_rules-update_rows f id d.rules k ∙ e

  -- A request of a user who is no administrator, served or refused, neither grants, changes nor removes a
  -- bandwidth profile, a limit of connections or a PROXY header, of any rule and of the one it creates.
  pub serve-managed_rules :
      (req : Request) → managed_rules (serve formats s auth req).db.rules ≡ managed_rules s.db.rules
  serve-managed_rules req =
      serve-cases formats s auth Same refl req
        (λ r a.
          write_settings-cases Same s.db.next_rule_id a.placed.inserted a.targets.0 a.targets.1
            (is_true r.send_proxy_protocol) (created-Same r a)
            (λ d. step-Same _ s.db.next_rule_id d (λ o. (refl, refl)))
            (λ x. absurd (ground (arith, (admitted-unmanaged r a).2, x))))
        (λ id r a.
          write_changes-cases Same id (update_rule (with_fields (fields_of r a.profile)) s.db id).0
            r a.targets
            (step-Same (with_fields (fields_of r a.profile)) id s.db (fields_of-Keeps id r a) refl)
            (λ x e d. step-Same _ id d (λ o. (refl, refl)))
            (λ b e. absurd (ground (arith, (change-unmanaged id r a).2, e)))
            (λ x d. step-Same _ id d (λ o. (refl, refl))))
        (λ id t. step-Same _ id s.db (λ o. (refl, refl)) refl)
        (λ id on t. step-Same _ id s.db (λ o. (refl, refl)) refl)
