-- ===== src/Panel/Users/Admins.antt =====
-- crates/panel-server/src/routes/users.rs: an administrator remains.
use emorelay.Base.{
  ℕ, suc, ◌≡◌, refl, sym, ap, subst, ◌∙◌, Bool, true, false, not, ◌&&◌, ◌||◌, Option, none, some,
  List, [], ◌∷◌, ◌++◌, ◌==◌, String, str_eq, if◌then◌else◌, any, All, All-intro, arith, Bool-cases,
  inl, inr, unwrap_or,
}
use emorelay.Base.Signed.{ℤ}
use emorelay.Base.Result.{ok, require-ok}
use emorelay.Panel.Rules.{AuthUser}
use emorelay.Panel.Users.{
  Account, Accounts, Library, is_admin_row, find_account, update_accounts, count_admins_excluding,
  insert_account, with_changes, month_day,
}
use emorelay.Panel.Users.Handlers.{
  Request, creates, updates, deletes, set_optional, check_role, serve, serve_all, CreateUserRequest,
  UpdateUserRequest, changed_settings, new_settings, role_checks, new_account,
}
use emorelay.Panel.Rules.Create.{positive_only}
use emorelay.Panel.Users.Cases.{create-cases, update-cases, delete-cases}
use emorelay.Panel.Users.Rows.{
  Distinct, found-only, Distinct-append, any-append, Distinct-update_accounts, any-update_accounts,
  others-update_accounts,
}

-- The ids of the accounts are unique, and a live one is an administrator.
pub record IsAdministered (n : ℕ) (rows : List Account) : Type 0 where
  pub distinct : Distinct n rows
  pub admin : any is_admin_row rows ≡ true

-- A setter leaves the id, the role and the deletion of a row.
abbrev pub IsSetter : (Account → Account) → Type 0
IsSetter f = (a : Account) → ((f a).id ≡ a.id) × (is_admin_row (f a) ≡ is_admin_row a)

set_optional-IsAdministered :
    (f : ℤ → Account → Account) (o : Option ℤ) (n id : ℕ) (rows : List Account)
    → ((z : ℤ) → IsSetter (f z))
    → IsAdministered n rows
    → IsAdministered n (set_optional f o id rows)
set_optional-IsAdministered f none n id rows k i = i
set_optional-IsAdministered f (some z) n id rows k i = record {
  distinct = Distinct-update_accounts (f z) id (λ a. (k z a).0) n rows i.distinct;
  admin =
      any-update_accounts (f z) id is_admin_row rows (All-intro _ (λ a t e. (k z a).1 ∙ e) rows)
        i.admin;
}

changed_settings-IsAdministered :
    (req : UpdateUserRequest) (n id : ℕ) (rows : List Account)
    → IsAdministered n rows
    → IsAdministered n (changed_settings req id rows)
changed_settings-IsAdministered req n id rows i =
    set_optional-IsAdministered _ req.forward_rules_quota n id _ (λ z a. (refl, refl))
      (set_optional-IsAdministered _ req.quota_reset_day n id rows (λ z a. (refl, refl)) i)

new_settings-IsAdministered :
    (req : CreateUserRequest) (n id : ℕ) (rows : List Account)
    → IsAdministered n rows
    → IsAdministered n (new_settings req id rows)
new_settings-IsAdministered req n id rows i =
    set_optional-IsAdministered _ (positive_only req.forward_rules_quota) n id _
      (λ z a. (refl, refl))
      (set_optional-IsAdministered _ (month_day req.quota_reset_day) n id rows (λ z a. (refl, refl))
        i)

pub insert_account-rows :
    (rows added : List Account) (a : Account)
    → insert_account rows a ≡ some added
    → rows ++ (a ∷ []) ≡ added
unfolding insert_account
insert_account-rows rows added a s =
    let taken = any (λ (o : Account). str_eq o.username a.username && not o.deleted) rows in
    elim (Bool-cases taken) [
      | inl t ↦
          absurd (none-some (ap (λ b. if b then none else some (rows ++ (a ∷ []))) (sym t) ∙ s))
      | inr t ↦
          ap (λ o. unwrap_or o [])
            (ap (λ b. if b then none else some (rows ++ (a ∷ []))) (sym t) ∙ s)
    ]
  where
    none-some : {x : List Account} → ◌≡◌ {A = Option (List Account)} none (some x) → ⊥
    none-some h = cc

append-IsAdministered :
    (n : ℕ) (rows added : List Account) (a : Account)
    → a.id ≡ n
    → insert_account rows a ≡ some added
    → IsAdministered n rows
    → IsAdministered (suc n) added
append-IsAdministered n rows added a e s i =
    subst (IsAdministered (suc n)) (insert_account-rows rows added a s) (record {
      distinct = Distinct-append n rows a i.distinct e;
      admin = any-append is_admin_row rows a i.admin;
    })

-- What a change of the role leaves: an administrator who is one stays one.
abbrev pub keeps_role : Option String → Account → Bool
keeps_role none e = true
keeps_role (some r) e = str_eq r "admin" || not (str_eq e.role "admin")

pub with_changes-is_admin_row :
    (hash role expires : Option String) (limit : Option ℤ) (e : Account)
    → keeps_role role e ≡ true
    → is_admin_row e ≡ true
    → is_admin_row (with_changes hash role expires limit e) ≡ true
unfolding with_changes
with_changes-is_admin_row hash none expires limit e k h = h
with_changes-is_admin_row hash (some r) expires limit e k h = ground (arith, k, h)

-- A change of the role that passes takes the last administrator's away from no one.
check_role-others :
    (s : Accounts) (auth : AuthUser) (id : ℕ) (e : Account) (role : Option String)
    → check_role s auth id e role ≡ ok tt
    → keeps_role role e ≡ false
    → (count_admins_excluding id s.rows == 0) ≡ false
unfolding check_role
check_role-others s auth id e none c k = absurd (ground (arith, k))
check_role-others s auth id e (some r) c k =
    let checks = require-ok (role_checks s auth id e r) c in ground (arith, checks.1.1.0, k)

pub with_changes-id :
    (hash role expires : Option String) (limit : Option ℤ) (a : Account)
    → (with_changes hash role expires limit a).id ≡ a.id
unfolding with_changes
with_changes-id hash role expires limit a = refl

-- What holds of the one live row of an id holds of each.
pub only-All :
    (id : ℕ) (e : Account) (Q : Account → Type 0) (rows : List Account)
    → All (λ a. (a.id == id && not a.deleted) ≡ true → a ≡ e) rows
    → Q e
    → All (λ a. (a.id == id && not a.deleted) ≡ true → Q a) rows
only-All id e Q [] h q = tt
only-All id e Q (a ∷ rows) (x, h) q = ((λ t. subst Q (sym (x t)) q), only-All id e Q rows h q)

update_accounts-IsAdministered :
    (s : Accounts) (auth : AuthUser) (id : ℕ) (e : Account) (hash role expires : Option String)
    (limit : Option ℤ)
    → IsAdministered s.next_user_id s.rows
    → find_account s id ≡ some e
    → check_role s auth id e role ≡ ok tt
    → IsAdministered s.next_user_id
        (update_accounts (with_changes hash role expires limit) id s.rows).0
update_accounts-IsAdministered s auth id e hash role expires limit i f c =
    let change : Account → Account = with_changes hash role expires limit in
    record {
      distinct =
          Distinct-update_accounts change id (with_changes-id hash role expires limit)
            s.next_user_id s.rows i.distinct;
      admin = elim (Bool-cases (keeps_role role e)) [
        | inl k ↦
            any-update_accounts change id is_admin_row s.rows
              (only-All id e (λ a. is_admin_row a ≡ true → is_admin_row (change a) ≡ true) s.rows
                (found-only s.next_user_id id s.rows e i.distinct f)
                (with_changes-is_admin_row hash role expires limit e k))
              i.admin
        | inr k ↦ others-update_accounts change id s.rows (check_role-others s auth id e role c k)
      ];
    }

gone-IsAdministered :
    (s : Accounts) (id : ℕ) (e : Account)
    → IsAdministered s.next_user_id s.rows
    → find_account s id ≡ some e
    → not (str_eq e.role "admin" && count_admins_excluding id s.rows == 0) ≡ true
    → IsAdministered s.next_user_id (update_accounts (λ a. record a { deleted = true }) id s.rows).0
gone-IsAdministered s id e i f c =
    let change : Account → Account = λ a. record a { deleted = true } in
    record {
      distinct = Distinct-update_accounts change id (λ a. refl) s.next_user_id s.rows i.distinct;
      admin = elim (Bool-cases (str_eq e.role "admin")) [
        | inl r ↦ others-update_accounts change id s.rows (ground (arith, c, r))
        | inr r ↦
            any-update_accounts change id is_admin_row s.rows
              (only-All id e (λ a. is_admin_row a ≡ true → is_admin_row (change a) ≡ true) s.rows
                (found-only s.next_user_id id s.rows e i.distinct f)
                (λ t. absurd (ground (arith, r, t))))
              i.admin
      ];
    }

-- An administrator remains among the rows.
abbrev pub Administered : Accounts → Type 0
Administered s = IsAdministered s.next_user_id s.rows

serve-Administered :
    (lib : Library) (s : Accounts) (auth : AuthUser) (req : Request)
    → Administered s
    → Administered (serve lib s auth req)
unfolding serve
serve-Administered lib s auth (creates r) i =
    create-cases lib s auth Administered i r (λ expires hash rows g log a k.
      new_settings-IsAdministered r (suc s.next_user_id) s.next_user_id rows
        (append-IsAdministered s.next_user_id s.rows rows (new_account s r expires hash) refl k i))
serve-Administered lib s auth (updates id r) i =
    update-cases lib s auth Administered i id r (λ e hash expires g log a f c.
      changed_settings-IsAdministered r s.next_user_id id _ (
        update_accounts-IsAdministered s auth id e hash r.role expires r.traffic_limit_bytes_30d i f
          c))
serve-Administered lib s auth (deletes id) i =
    delete-cases lib s auth Administered i id (λ e log o f c. gone-IsAdministered s id e i f c)

-- Through any requests, of any users, served or refused: if the ids of the accounts are unique and a live
-- account is an administrator's, both hold afterwards, so that the system never loses its last
-- administrator, whoever is deleted or loses the role.
pub serve_all-Administered :
    (lib : Library) (s : Accounts) (reqs : List (AuthUser × Request))
    → Administered s
    → Administered (serve_all lib s reqs)
serve_all-Administered lib s [] i = i
serve_all-Administered lib s ((auth, req) ∷ reqs) i =
    serve_all-Administered lib (serve lib s auth req) reqs (serve-Administered lib s auth req i)
