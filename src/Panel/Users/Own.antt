-- ===== src/Panel/Users/Own.antt =====
-- crates/panel-server/src/routes/users.rs: no one loses the own account.
use emorelay.Base.{
  ℕ, ◌≡◌, refl, ap, subst, ◌∙◌, Bool, true, false, ◌&&◌, Option, none, some, List, ◌==◌, String,
  any, All-intro, arith, Bool-cases, inl, inr,
}
use emorelay.Base.Signed.{ℤ}
use emorelay.Base.Result.{ok, require-ok}
use emorelay.Panel.Rules.{AuthUser}
use emorelay.Panel.Users.{
  Account, Accounts, Library, is_admin_row, find_account, update_accounts, insert_account,
  with_changes, month_day,
}
use emorelay.Panel.Users.Handlers.{
  Request, creates, updates, deletes, set_optional, check_role, serve, role_checks, new_account,
}
use emorelay.Panel.Rules.Create.{positive_only}
use emorelay.Panel.Users.Cases.{create-cases, update-cases, delete-cases}
use emorelay.Panel.Users.Rows.{found-only, any-append, any-update_accounts}
use emorelay.Panel.Users.Admins.{
  Administered, keeps_role, insert_account-rows, with_changes-is_admin_row, with_changes-id,
  only-All,
}

-- A live row of this id is an administrator's.
abbrev pub is_own : ℕ → Account → Bool
is_own v a = a.id == v && is_admin_row a

set_optional-is_own :
    (f : ℤ → Account → Account) (o : Option ℤ) (v id : ℕ) (rows : List Account)
    → ((z : ℤ) (a : Account) → is_own v (f z a) ≡ is_own v a)
    → any (is_own v) rows ≡ true
    → any (is_own v) (set_optional f o id rows) ≡ true
set_optional-is_own f none v id rows k i = i
set_optional-is_own f (some z) v id rows k i =
    any-update_accounts (f z) id (is_own v) rows (All-intro _ (λ a t e. k z a ∙ e) rows) i

-- An update of another account.
other-is_own :
    (f : Account → Account) (v id : ℕ) (rows : List Account)
    → (id == v) ≡ false
    → any (is_own v) rows ≡ true
    → any (is_own v) (update_accounts f id rows).0 ≡ true
other-is_own f v id rows d h =
    any-update_accounts f id (is_own v) rows
      (All-intro _ (λ a t e. absurd (ground (arith, d, t, e))) rows) h

-- One's own role is not changed.
own_role :
    (s : Accounts) (auth : AuthUser) (id : ℕ) (e : Account) (role : Option String)
    → (id == auth.sub) ≡ true
    → check_role s auth id e role ≡ ok tt
    → keeps_role role e ≡ true
unfolding check_role
own_role s auth id e none o c = refl
own_role s auth id e (some r) o c =
    let checks = require-ok (role_checks s auth id e r) c in ground (arith, checks.1.0, o)

with_changes-is_own :
    (v : ℕ) (hash role expires : Option String) (limit : Option ℤ) (e : Account)
    → keeps_role role e ≡ true
    → is_own v e ≡ true
    → is_own v (with_changes hash role expires limit e) ≡ true
with_changes-is_own v hash role expires limit e k h =
    let same : ((with_changes hash role expires limit e).id == v) ≡ (e.id == v) =
      ap (λ i. i == v) (with_changes-id hash role expires limit e) in
    let admin = with_changes-is_admin_row hash role expires limit e k (ground (arith, h)) in
    ground (arith, same, admin, h)

update_accounts-is_own :
    (s : Accounts) (auth : AuthUser) (id : ℕ) (e : Account) (hash role expires : Option String)
    (limit : Option ℤ)
    → Administered s
    → find_account s id ≡ some e
    → check_role s auth id e role ≡ ok tt
    → any (is_own auth.sub) s.rows ≡ true
    → any (is_own auth.sub) (update_accounts (with_changes hash role expires limit) id s.rows).0
      ≡ true
update_accounts-is_own s auth id e hash role expires limit i f c h =
    let change : Account → Account = with_changes hash role expires limit in
    elim (Bool-cases (id == auth.sub)) [
      | inl o ↦
          any-update_accounts change id (is_own auth.sub) s.rows
            (only-All id e (λ a. is_own auth.sub a ≡ true → is_own auth.sub (change a) ≡ true)
              s.rows (found-only s.next_user_id id s.rows e i.distinct f)
              (with_changes-is_own auth.sub hash role expires limit e
                (own_role s auth id e role o c)))
            h
      | inr d ↦ other-is_own change auth.sub id s.rows d h
    ]

inserted-is_own :
    (v : ℕ) (rows added : List Account) (a : Account)
    → insert_account rows a ≡ some added
    → any (is_own v) rows ≡ true
    → any (is_own v) added ≡ true
inserted-is_own v rows added a s h =
    subst (λ t. any (is_own v) t ≡ true) (insert_account-rows rows added a s)
      (any-append (is_own v) rows a h)

-- An administrator whose account is live cannot give it up by any request, served or refused: neither by
-- deleting it nor by a change of the role. The ids of the accounts must be unique.
pub serve-is_own :
    (lib : Library) (s : Accounts) (auth : AuthUser) (req : Request)
    → Administered s
    → any (is_own auth.sub) s.rows ≡ true
    → any (is_own auth.sub) (serve lib s auth req).rows ≡ true
unfolding serve
serve-is_own lib s auth (creates r) i h =
    create-cases lib s auth (λ t. any (is_own auth.sub) t.rows ≡ true) h r
      (λ expires hash rows g log a k.
        set_optional-is_own _ (positive_only r.forward_rules_quota) auth.sub s.next_user_id _
          (λ z b. refl)
          (set_optional-is_own _ (month_day r.quota_reset_day) auth.sub s.next_user_id rows
            (λ z b. refl)
            (inserted-is_own auth.sub s.rows rows (new_account s r expires hash) k h)))
serve-is_own lib s auth (updates id r) i h =
    update-cases lib s auth (λ t. any (is_own auth.sub) t.rows ≡ true) h id r
      (λ e hash expires g log a f c.
        set_optional-is_own _ r.forward_rules_quota auth.sub id _ (λ z b. refl)
          (set_optional-is_own _ r.quota_reset_day auth.sub id _ (λ z b. refl)
            (update_accounts-is_own s auth id e hash r.role expires r.traffic_limit_bytes_30d i f c
              h)))
serve-is_own lib s auth (deletes id) i h =
    delete-cases lib s auth (λ t. any (is_own auth.sub) t.rows ≡ true) h id
      (λ e log o f c. other-is_own (λ a. record a { deleted = true }) auth.sub id s.rows o h)
