-- ===== src/Panel/Rules/Quota.antt =====
-- crates/panel-server/src/routes/rules.rs: how many rules a user may have.
use emorelay.Base.{
  ℕ, ◌+◌, ◌≤◌, ◌<◌, max, ◌≡◌, refl, sym, ap, ap₂, subst, ◌∙◌, Bool, true, not, ◌&&◌, Option, none,
  some, List, [], ◌∷◌, ◌++◌, String, ◌==◌, ==_iff, length, length-append, retain, retain-append,
  if◌then◌else◌, arith, Bool-cases, inl, inr, unwrap_or,
}
use emorelay.Base.Signed.{ℤ, pos, negsuc, pos_part}
use emorelay.Base.Result.{ok}
use emorelay.Panel.Db.{Db, DbRule, Fields, with_fields, update_rule, update_rows, opt_is}
use emorelay.Panel.Grants.{tunnel_grant_num}
use emorelay.Panel.Rules.{Formats, AuthUser, User, Site, find_user, bad_request, tunnel_quota}
use emorelay.Panel.Rules.Create.{
  CreateRuleRequest, owned, rules_of, rules_in_tunnel, is_reached, check_tunnel_quota, new_row,
  is_true,
}
use emorelay.Panel.Rules.Update.{fields_of}
use emorelay.Panel.Rules.Create.Admission as Creation
use emorelay.Panel.Rules.Handlers.{Request, serve}
use emorelay.Panel.Rules.Handlers.Cases.{serve-cases}
use emorelay.Panel.Rules.Writes.{
  guard-ok_only, insert_rule-rules, write_settings-cases, write_changes-cases,
}

-- What a quota allows, as a number: a negative one allows nothing.
abbrev pub allowed : ℤ → ℕ
allowed limit = pos_part limit

below_limit :
    (limit : ℤ) (used : ℕ) → not (is_reached (some limit) used) ≡ true → used < allowed limit
below_limit (pos n) used h = ground (arith, h)
below_limit (negsuc n) used h = absurd (ground (arith, h))

opt_is-some : (o : Option ℕ) (n : ℕ) → opt_is o n ≡ true → o ≡ some n
opt_is-some none n h = cc
opt_is-some (some m) n h = ap some ((==_iff m n).0 h)

-- A change after which no more rules pass the test.
abbrev Shrinks : (DbRule → Bool) → (DbRule → DbRule) → Type 0
Shrinks p f = (r : DbRule) → p (f r) ≡ true → p r ≡ true

module _ (p : DbRule → Bool) where
  abbrev count : List DbRule → ℕ
  count rules = length (retain p rules)

  count-update_rows :
      (f : DbRule → DbRule) (id : ℕ) (rules : List DbRule)
      → Shrinks p f
      → count (update_rows f id rules).0 ≤ count rules
  count-update_rows f id [] k = omega arith
  count-update_rows f id (r ∷ rules) k =
      let rest = count-update_rows f id rules k in
      elim (Bool-cases (r.id == id && not r.deleted)) [
        | inl e ↦ elim (Bool-cases (p (f r))) [
          | inl g ↦ rw (e, g, k r g, if◌then◌else◌) (omega (arith, rest))
          | inr g ↦ elim (Bool-cases (p r)) [
            | inl h ↦ rw (e, g, h, if◌then◌else◌) (omega (arith, rest))
            | inr h ↦ rw (e, g, h, if◌then◌else◌) rest
          ]
        ]
        | inr e ↦ elim (Bool-cases (p r)) [
          | inl h ↦ rw (e, h, if◌then◌else◌) (omega (arith, rest))
          | inr h ↦ rw (e, h, if◌then◌else◌) rest
        ]
      ]

  count-append :
      (rules : List DbRule) (r : DbRule)
      → count (rules ++ (r ∷ [])) ≡ count rules + (if p r then 1 else 0)
  count-append rules r = elim (Bool-cases (p r)) [
    | inl e ↦
        ap length (retain-append p rules (r ∷ []))
        ∙ length-append (retain p rules) (retain p (r ∷ []))
        ∙ rw e refl
    | inr e ↦
        ap length (retain-append p rules (r ∷ []))
        ∙ length-append (retain p rules) (retain p (r ∷ []))
        ∙ rw e refl
  ]

  -- The common part of the two quotas: a request adds at most one rule that passes the test, and adds
  -- none if the test has room for none.
  module _ (formats : Formats) (s : Site) (auth : AuthUser) (limit : ℤ)
      (fields : (u : Fields) → Shrinks p (with_fields u))
      (targets : (x : Option String) (y : String)
        → Shrinks p (λ r. record r { extra_targets = x; lb_strategy = y }))
      (proxy : (b : Bool) → Shrinks p (λ r. record r { send_proxy_protocol = b }))
      (remote_af : (x : String) → Shrinks p (λ r. record r { remote_af = x }))
      (switch : (b : Bool) → Shrinks p (λ r. record r { enabled = b }))
      (delete : Shrinks p (λ r. record r { deleted = true }))
      (room : (r : CreateRuleRequest) (a : Creation.Admitted formats s auth r)
        → p (new_row r a.owner_id a.placed.profile a.placed.port s.db.next_rule_id) ≡ true
        → count s.db.rules < allowed limit) where
    abbrev Within : Db → Type 0
    Within db = count db.rules ≤ max (allowed limit) (count s.db.rules)

    step-Within :
        (f : DbRule → DbRule) (id : ℕ) (d : Db)
        → Shrinks p f
        → Within d
        → Within (update_rule f d id).0
    step-Within f id d k w = omega (arith, count-update_rows f id d.rules k, w)

    created-Within :
        (r : CreateRuleRequest) (a : Creation.Admitted formats s auth r) → Within a.placed.inserted
    unfolding new_row
    created-Within r a =
        let row = new_row r a.owner_id a.placed.profile a.placed.port s.db.next_rule_id in
        let grown =
          ap count (insert_rule-rules s.db a.placed.inserted row a.placed.insert_ok)
          ∙ count-append s.db.rules row in
        elim (Bool-cases (p row)) [
          | inl e ↦
              let more = grown ∙ ap (λ b. count s.db.rules + (if b then 1 else 0)) e in
              omega (arith, more, room r a e)
          | inr e ↦
              let same = grown ∙ ap (λ b. count s.db.rules + (if b then 1 else 0)) e in
              omega (arith, same)
        ]

    serve-Within : (req : Request) → Within (serve formats s auth req).db
    serve-Within req =
        serve-cases formats s auth Within (omega arith) req
          (λ r a.
            write_settings-cases Within s.db.next_rule_id a.placed.inserted a.targets.0 a.targets.1
              (is_true r.send_proxy_protocol) (created-Within r a)
              (λ d. step-Within _ s.db.next_rule_id d (targets a.targets.0 a.targets.1))
              (λ x d. step-Within _ s.db.next_rule_id d (proxy true)))
          (λ id r a.
            write_changes-cases Within id
              (update_rule (with_fields (fields_of r a.profile)) s.db id).0 r a.targets
              (step-Within (with_fields (fields_of r a.profile)) id s.db
                (fields (fields_of r a.profile)) (omega arith))
              (λ x e d. step-Within _ id d (targets x.0 x.1))
              (λ b e d. step-Within _ id d (proxy b)) (λ x d. step-Within _ id d (remote_af x)))
          (λ id t. step-Within _ id s.db delete (omega arith))
          (λ id on t. step-Within _ id s.db (switch on) (omega arith))

module _ (formats : Formats) (s : Site) (auth : AuthUser) where
  -- No request, of an administrator or of a user, takes the number of a user's live rules above the
  -- user's quota: it stays within the quota or what it was before, whichever is more.
  pub serve-rules_of :
      (req : Request) (user_id : ℕ) (u : User) (limit : ℤ)
      → find_user s user_id ≡ some u
      → u.forward_rules_quota ≡ some limit
      → rules_of user_id (serve formats s auth req).db.rules
        ≤ max (allowed limit) (rules_of user_id s.db.rules)
  unfolding rules_of with_fields new_row
  serve-rules_of req user_id u limit f q =
      serve-Within (owned user_id) formats s auth limit (λ w r e. e) (λ x y r e. e) (λ b r e. e)
        (λ x r e. e) (λ b r e. e) (λ r e. absurd (ground (arith, e)))
        (λ r a e.
          let own : a.owner_id ≡ user_id = (==_iff a.owner_id user_id).0 (ground (arith, e)) in
          let same : a.placed.owner ≡ u =
            ap (λ o. unwrap_or o u) (sym a.placed.user_ok ∙ ap (find_user s) own ∙ f) in
          let quota : a.placed.owner.forward_rules_quota ≡ some limit =
            ap (λ (x : User). x.forward_rules_quota) same ∙ q in
          below_limit limit (count (owned user_id) s.db.rules) (
            ap₂ (λ o n. not (is_reached o (count (owned n) s.db.rules))) (sym quota) (sym own)
            ∙ a.placed.quota_ok))
        req

  -- No request takes the number of a user's live rules over a tunnel above the limit of the user's grant
  -- of that tunnel: it stays within the limit or what it was before.
  pub serve-rules_in_tunnel :
      (req : Request) (user_id tid : ℕ) (limit : ℤ)
      → tunnel_grant_num s.grants user_id tid ≡ some limit
      → rules_in_tunnel user_id tid (serve formats s auth req).db.rules
        ≤ max (allowed limit) (rules_in_tunnel user_id tid s.db.rules)
  unfolding rules_in_tunnel with_fields new_row check_tunnel_quota
  serve-rules_in_tunnel req user_id tid limit q =
      serve-Within (λ r. owned user_id r && opt_is r.tunnel_id tid) formats s auth limit
        (λ w r e. e) (λ x y r e. e) (λ b r e. e) (λ x r e. e) (λ b r e. e)
        (λ r e. absurd (ground (arith, e)))
        (λ r a e.
          let own : a.owner_id ≡ user_id = (==_iff a.owner_id user_id).0 (ground (arith, e)) in
          let over : r.tunnel_id ≡ some tid = opt_is-some r.tunnel_id tid (ground (arith, e)) in
          below_limit limit (count (λ x. owned user_id x && opt_is x.tunnel_id tid) s.db.rules) (
            ap₂
              (λ o n.
                not (is_reached o (count (λ x. owned n x && opt_is x.tunnel_id tid) s.db.rules)))
              (sym q ∙ ap (λ n. tunnel_grant_num s.grants n tid) (sym own)) (sym own)
            ∙ guard-ok_only _ (bad_request tunnel_quota) (
                subst (λ t. check_tunnel_quota s a.owner_id t ≡ ok tt) over
                  a.placed.tunnel_quota_ok)))
        req
