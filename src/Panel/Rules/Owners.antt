-- ===== src/Panel/Rules/Owners.antt =====
-- crates/panel-server/src/routes/rules.rs: whose rules a request changes.
use emorelay.Base.{
  ℕ, ◌≡◌, refl, sym, ap, subst, ◌∙◌, true, false, not, ◌&&◌, Option, none, some, is_some, List, [],
  ◌∷◌, ◌++◌, ◌==◌, ==_iff, if◌then◌else◌, retain, All, All-append, arith, Bool-cases, inl, inr,
}
use emorelay.Base.Result.{ok, guard, ok_injective, ◌>>◌}
use emorelay.Panel.Db.{Db, DbRule, with_fields, update_rule, update_rows, find_rule}
use emorelay.Panel.Db.Updates.{with_fields-kept}
use emorelay.Panel.Ports.Exclusion.{Fresh}
use emorelay.Panel.Ports.Table.{IsTable, found-only}
use emorelay.Panel.Rules.{
  Formats, AuthUser, Site, bad_request, not_found, owner_not_self, owner_missing, find_user,
  ensure_can_touch, can_touch,
}
use emorelay.Panel.Rules.Create.{CreateRuleRequest, owner_of, new_row, is_true}
use emorelay.Panel.Rules.Update.{fields_of}
use emorelay.Panel.Rules.Create.Admission.{created_db}
use emorelay.Panel.Rules.Create.Admission as Creation
use emorelay.Panel.Rules.Handlers.{Request, serve}
use emorelay.Panel.Rules.Handlers.Cases.{serve-cases}
use emorelay.Panel.Rules.Writes.{
  guard-ok, guard-ok_only, insert_rule-rules, write_settings-cases, write_changes-cases,
}

-- The rules of all the other users, the deleted ones included.
abbrev pub strangers : ℕ → List DbRule → List DbRule
strangers user_id rules = retain (λ r. not (r.user_id == user_id)) rules

-- Each live rule of the id is the user's.
abbrev Own : ℕ → ℕ → List DbRule → Type 0
Own user_id id rules =
    All (λ r. (r.id == id && not r.deleted) ≡ true → (r.user_id == user_id) ≡ true) rules

-- The other users' rules are as they were, and the id is the user's.
abbrev Apart : ℕ → ℕ → List DbRule → List DbRule → Type 0
Apart user_id id before rules =
    (strangers user_id rules ≡ strangers user_id before) × Own user_id id rules

module _ (user_id id : ℕ) (f : DbRule → DbRule)
    (keeps : (r : DbRule) → (f r).user_id ≡ r.user_id) where
  strangers-update_rows :
      (rules : List DbRule)
      → Own user_id id rules
      → strangers user_id (update_rows f id rules).0 ≡ strangers user_id rules
  strangers-update_rows [] o = refl
  strangers-update_rows (r ∷ rules) (x, o) = elim (Bool-cases (r.id == id && not r.deleted)) [
    | inl e ↦ rw (e, keeps r, x e, if◌then◌else◌) (strangers-update_rows rules o)
    | inr e ↦ elim (Bool-cases (r.user_id == user_id)) [
      | inl g ↦ rw (e, g, if◌then◌else◌) (strangers-update_rows rules o)
      | inr g ↦ rw (e, g, if◌then◌else◌) (ap (λ rs. r ∷ rs) (strangers-update_rows rules o))
    ]
  ]

  Own-update_rows :
      (rules : List DbRule) → Own user_id id rules → Own user_id id (update_rows f id rules).0
  Own-update_rows [] o = tt
  Own-update_rows (r ∷ rules) (x, o) = elim (Bool-cases (r.id == id && not r.deleted)) [
    | inl e ↦
        rw (e, if◌then◌else◌)
          ((λ h. ap (λ u. u == user_id) (keeps r) ∙ x e), Own-update_rows rules o)
    | inr e ↦ rw (e, if◌then◌else◌) (x, Own-update_rows rules o)
  ]

  Apart-update_rows :
      (before rules : List DbRule)
      → Apart user_id id before rules
      → Apart user_id id before (update_rows f id rules).0
  Apart-update_rows before rules (e, o) =
      (strangers-update_rows rules o ∙ e, Own-update_rows rules o)

pub touched-owner :
    (auth : AuthUser) (r : DbRule)
    → auth.is_admin ≡ false
    → ensure_can_touch auth r ≡ ok tt
    → (r.user_id == auth.sub) ≡ true
unfolding ensure_can_touch
touched-owner auth r n h =
    ap (λ b. elim b [ true ↦ true | false ↦ r.user_id == auth.sub ]) (sym n)
    ∙ guard-ok_only (can_touch auth r) not_found h

All-Own :
    (user_id id : ℕ) (e : DbRule) (rules : List DbRule)
    → (e.user_id == user_id) ≡ true
    → All (λ r. (r.id == id && not r.deleted) ≡ true → r ≡ e) rules
    → Own user_id id rules
All-Own user_id id e [] u a = tt
All-Own user_id id e (r ∷ rules) u (x, a) =
    ((λ t. ap (λ (q : DbRule). q.user_id == user_id) (x t) ∙ u), All-Own user_id id e rules u a)

Fresh-Own : (user_id n : ℕ) (rules : List DbRule) → Fresh n rules → Own user_id n rules
Fresh-Own user_id n [] f = tt
Fresh-Own user_id n (r ∷ rules) (low, other, f) =
    ((λ t. absurd (ground (arith, low, t))), Fresh-Own user_id n rules f)

-- Without the administrator's role, the owner is the caller.
pub owner_of_self :
    (s : Site) (auth : AuthUser) (asked : Option ℕ) (owner_id : ℕ)
    → auth.is_admin ≡ false
    → owner_of s auth asked ≡ ok owner_id
    → (owner_id == auth.sub) ≡ true
owner_of_self s auth none owner_id n h =
    (==_iff owner_id auth.sub).1 (sym (ok_injective auth.sub owner_id h))
owner_of_self s auth (some uid) owner_id n h =
    let (e, g) = guard-ok (uid == auth.sub) (bad_request owner_not_self) (ok uid) owner_id (
      ap
        (λ b. elim b [
          | false ↦ do guard (uid == auth.sub) (bad_request owner_not_self); ok uid
          | true ↦ do guard (is_some (find_user s uid)) (bad_request owner_missing); ok uid
        ])
        (sym n)
      ∙ h) in
    subst (λ i. (i == auth.sub) ≡ true) (ok_injective uid owner_id g) e

strangers-append :
    (user_id : ℕ) (rules : List DbRule) (r : DbRule)
    → (r.user_id == user_id) ≡ true
    → strangers user_id (rules ++ (r ∷ [])) ≡ strangers user_id rules
strangers-append user_id [] r e = rw (e, if◌then◌else◌) refl
strangers-append user_id (o ∷ rules) r e = ground (arith, strangers-append user_id rules r e)

module _ (formats : Formats) (s : Site) (auth : AuthUser) (user : auth.is_admin ≡ false)
    (table : IsTable s.db) where
  abbrev P : ℕ → Db → Type 0
  P id db = Apart auth.sub id s.db.rules db.rules

  touched-Own :
      (id : ℕ) (e : DbRule)
      → find_rule s.db id ≡ some e
      → ensure_can_touch auth e ≡ ok tt
      → Own auth.sub id s.db.rules
  touched-Own id e f t =
      All-Own auth.sub id e s.db.rules (touched-owner auth e user t)
        (found-only s.db.next_rule_id id s.db.rules e table.fresh f)

  created-Apart :
      (r : CreateRuleRequest) (a : Creation.Admitted formats s auth r)
      → P s.db.next_rule_id a.placed.inserted
  unfolding new_row
  created-Apart r a =
      let id = s.db.next_rule_id in
      let row = new_row r a.owner_id a.placed.profile a.placed.port id in
      let own = owner_of_self s auth r.user_id a.owner_id user a.owner_ok in
      subst (Apart auth.sub id s.db.rules)
        (sym (insert_rule-rules s.db a.placed.inserted row a.placed.insert_ok))
        (
          strangers-append auth.sub s.db.rules row own,
          All-append
              (λ (o : DbRule).
                (o.id == id && not o.deleted) ≡ true → (o.user_id == auth.sub) ≡ true)
              s.db.rules (row ∷ []) (Fresh-Own auth.sub id s.db.rules table.fresh) ((λ t. own), tt),
        )

  -- A request of a user who is no administrator, served or refused, leaves the rules of all the other
  -- users exactly as they are, whatever id or owner it names.
  pub serve-strangers :
      (req : Request)
      → strangers auth.sub (serve formats s auth req).db.rules ≡ strangers auth.sub s.db.rules
  serve-strangers req =
      serve-cases formats s auth (λ db. strangers auth.sub db.rules ≡ strangers auth.sub s.db.rules)
        refl req
        (λ r a.
          (write_settings-cases (P s.db.next_rule_id) s.db.next_rule_id a.placed.inserted
            a.targets.0 a.targets.1 (is_true r.send_proxy_protocol) (created-Apart r a)
            (λ d. Apart-update_rows auth.sub s.db.next_rule_id _ (λ o. refl) s.db.rules d.rules)
            (λ x d.
              Apart-update_rows auth.sub s.db.next_rule_id _ (λ o. refl) s.db.rules d.rules)).0)
        (λ id r a.
          (write_changes-cases (P id) id
            (update_rule (with_fields (fields_of r a.profile)) s.db id).0 r a.targets
            (Apart-update_rows auth.sub id (with_fields (fields_of r a.profile))
              (λ o. (with_fields-kept (fields_of r a.profile) o).1) s.db.rules s.db.rules
              (refl, touched-Own id a.existing a.found a.touch_ok))
            (λ x e d. Apart-update_rows auth.sub id _ (λ o. refl) s.db.rules d.rules)
            (λ b e d. Apart-update_rows auth.sub id _ (λ o. refl) s.db.rules d.rules)
            (λ x d. Apart-update_rows auth.sub id _ (λ o. refl) s.db.rules d.rules)).0)
        (λ id t.
          strangers-update_rows auth.sub id _ (λ o. refl) s.db.rules
            (touched-Own id t.existing t.found t.touch_ok))
        (λ id on t.
          strangers-update_rows auth.sub id _ (λ o. refl) s.db.rules
            (touched-Own id t.existing t.found t.touch_ok))
