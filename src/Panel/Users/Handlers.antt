-- ===== src/Panel/Users/Handlers.antt =====
-- crates/panel-server/src/routes/users.rs: the requests and their handlers.
use emorelay.Base.{
  ℕ, suc, Bool, true, false, not, ◌&&◌, Option, none, some, List, [], ◌∷◌, ◌++◌, ◌==◌, String,
  str_eq, if◌then◌else◌,
}
use emorelay.Base.Signed.{ℤ}
use emorelay.Base.Result.{Result, ok, ◌>>=◌, ◌>>◌, guard, require, ok_or, after}
use emorelay.Base.Text.{trim, is_empty}
use emorelay.Panel.Grants.{Grants, set_node_grants, set_tunnel_grants}
use emorelay.Panel.Rules.{AuthUser, AuditEntry}
use emorelay.Panel.Rules.Create.{is_negative, positive_only}
use emorelay.Panel.Users.{
  Account, Accounts, Library, Refusal, bad_expiry, bad_password, bad_reset_day, bad_role,
  bad_username, build_tunnel_grants, count_admins_excluding, find_account, forbidden, hash_failed,
  insert_account, is_password, is_reset_day, is_role, is_username, last_admin, month_day,
  negative_limit, negative_quota, non_zero, normalize_datetime, own_account, own_role, refused,
  unknown_user, update_accounts, username_taken, with_changes,
}

pub record CreateUserRequest : Type 0 where
  pub username : String
  pub password : String
  pub role : String
  pub expires_at : Option String
  pub traffic_limit_bytes_30d : Option ℤ
  pub quota_reset_day : Option ℤ
  pub forward_rules_quota : Option ℤ
  pub granted_node_ids : Option (List ℕ)
  pub granted_tunnel_ids : Option (List ℕ)
  pub tunnel_forward_limits : Option (List (ℕ × Option ℤ))

pub record UpdateUserRequest : Type 0 where
  pub password : Option String
  pub role : Option String
  pub expires_at : Option String
  pub traffic_limit_bytes_30d : Option ℤ
  pub quota_reset_day : Option ℤ
  pub forward_rules_quota : Option ℤ
  pub granted_node_ids : Option (List ℕ)
  pub granted_tunnel_ids : Option (List ℕ)
  pub tunnel_forward_limits : Option (List (ℕ × Option ℤ))

-- The lists that a request gives take the place of the grants; the others stay.
abbrev pub sync_grants :
    Accounts → ℕ → Option (List ℕ) → Option (List ℕ) → Option (List (ℕ × Option ℤ)) → Grants
sync_grants s id nodes tunnels limits =
    let g : Grants = elim nodes [
      | none ↦ s.grants
      | some ids ↦ set_node_grants s.db s.grants id ids
    ] in
    elim tunnels [
      | none ↦ g
      | some ids ↦ set_tunnel_grants s.db g id (build_tunnel_grants ids limits)
    ]

abbrev pub log_account : Accounts → AuthUser → String → ℕ → List AuditEntry
log_account s auth action id =
    s.audit ++ (record { actor_user_id = some auth.sub; action = action; target_id = id } ∷ [])

-- `None | Some("")` is no date, and every other one must be read.
abbrev pub new_expiry : Library → Option String → Result Refusal (Option String)
new_expiry lib none = ok none
new_expiry lib (some t) =
    if is_empty t
    then ok none
    else (ok_or (normalize_datetime lib t) (refused bad_expiry) >>= λ d. ok (some d))

-- An empty date is passed on, to clear the column.
abbrev pub changed_expiry : Library → Option String → Result Refusal (Option String)
changed_expiry lib none = ok none
changed_expiry lib (some t) =
    if is_empty t
    then ok (some t)
    else (ok_or (normalize_datetime lib t) (refused bad_expiry) >>= λ d. ok (some d))

abbrev pub set_optional : (ℤ → Account → Account) → Option ℤ → ℕ → List Account → List Account
set_optional f none id rows = rows
set_optional f (some n) id rows = (update_accounts (f n) id rows).0

-- The row is read back, the grants are synchronised, and the request is logged.
unfoldable pub finish :
    Accounts
    → AuthUser
    → ℕ
    → String
    → Option (List ℕ)
    → Option (List ℕ)
    → Option (List (ℕ × Option ℤ))
    → Result Refusal (Accounts × Account)
finish s auth id action nodes tunnels limits = do
  account ← ok_or (find_account s id) unknown_user
  ok (
    record s {
      grants = sync_grants s id nodes tunnels limits;
      audit = log_account s auth action id;
    },
    account,
  )

abbrev pub creation_checks : CreateUserRequest → List (Bool × Refusal)
creation_checks req =
    (is_username (trim req.username), refused bad_username)
    ∷ (is_password req.password, refused bad_password)
    ∷ (is_role req.role, refused bad_role)
    ∷ (is_reset_day req.quota_reset_day, refused bad_reset_day)
    ∷ (not (is_negative req.forward_rules_quota), refused negative_quota)
    ∷ []

-- The row of a new account: the password is for the first login.
abbrev pub new_account : Accounts → CreateUserRequest → Option String → String → Account
new_account s req expires hash = record {
  id = s.next_user_id;
  username = trim req.username;
  password_hash = hash;
  role = req.role;
  expires_at = expires;
  traffic_limit_bytes_30d = positive_only req.traffic_limit_bytes_30d;
  must_change_password = true;
  quota_reset_day = none;
  forward_rules_quota = none;
  deleted = false;
}

-- The reset day and the quota of a new account, where they are given.
abbrev pub new_settings : CreateUserRequest → ℕ → List Account → List Account
new_settings req id rows =
    set_optional (λ n a. record a { forward_rules_quota = some n })
      (positive_only req.forward_rules_quota) id
      (set_optional (λ d a. record a { quota_reset_day = some d }) (month_day req.quota_reset_day)
        id rows)

unfoldable pub create :
    Library → Accounts → AuthUser → CreateUserRequest → Result Refusal (Accounts × Account)
create lib s auth req = do
  guard auth.is_admin forbidden
  require (creation_checks req)
  expires ← new_expiry lib req.expires_at
  guard (not (is_negative req.traffic_limit_bytes_30d)) (refused negative_limit)
  hash ← ok_or (lib.hash_password req.password) hash_failed
  rows ← ok_or (insert_account s.rows (new_account s req expires hash)) (refused username_taken)
  finish
      (record s { rows = new_settings req s.next_user_id rows; next_user_id = suc s.next_user_id })
      auth s.next_user_id "user.create" req.granted_node_ids req.granted_tunnel_ids
      req.tunnel_forward_limits

abbrev pub role_checks : Accounts → AuthUser → ℕ → Account → String → List (Bool × Refusal)
role_checks s auth id existing r =
    (is_role r, refused bad_role)
    ∷ (
      not (id == auth.sub && (not (str_eq r "admin") && str_eq existing.role "admin")),
      refused own_role,
    )
    ∷ (
      not (
          str_eq existing.role "admin"
          && (not (str_eq r "admin") && count_admins_excluding id s.rows == 0)),
      refused last_admin,
    )
    ∷ []

-- What a change of the role is refused for: one's own, and that of the last administrator.
unfoldable pub check_role :
    Accounts → AuthUser → ℕ → Account → Option String → Result Refusal (Unit {0})
check_role s auth id existing none = ok tt
check_role s auth id existing (some r) = require (role_checks s auth id existing r)

-- A password that is not given needs no hash.
abbrev pub new_hash : Library → Option String → Result Refusal (Option String)
new_hash lib none = ok none
new_hash lib (some p) = ok_or (lib.hash_password p) hash_failed >>= λ h. ok (some h)

abbrev pub setting_checks : UpdateUserRequest → List (Bool × Refusal)
setting_checks req =
    (not (is_negative req.traffic_limit_bytes_30d), refused negative_limit)
    ∷ (is_reset_day req.quota_reset_day, refused bad_reset_day)
    ∷ (not (is_negative req.forward_rules_quota), refused negative_quota)
    ∷ []

abbrev pub password_ok : Option String → Bool
password_ok none = true
password_ok (some p) = is_password p

-- The reset day and the quota of an account, where they are given: 0 clears the one, and 0 or less the
-- other.
abbrev pub changed_settings : UpdateUserRequest → ℕ → List Account → List Account
changed_settings req id rows =
    set_optional (λ n a. record a { forward_rules_quota = positive_only (some n) })
      req.forward_rules_quota id
      (set_optional (λ d a. record a { quota_reset_day = non_zero d }) req.quota_reset_day id rows)

unfoldable pub update :
    Library → Accounts → AuthUser → ℕ → UpdateUserRequest → Result Refusal (Accounts × Account)
update lib s auth id req = do
  guard auth.is_admin forbidden
  existing ← ok_or (find_account s id) unknown_user
  guard (password_ok req.password) (refused bad_password)
  check_role s auth id existing req.role
  expires ← changed_expiry lib req.expires_at
  require (setting_checks req)
  hash ← new_hash lib req.password
  let changed =
      update_accounts (with_changes hash req.role expires req.traffic_limit_bytes_30d) id s.rows
  guard (not (changed.1 == 0)) unknown_user
  finish (record s { rows = changed_settings req id changed.0 }) auth id "user.update"
      req.granted_node_ids req.granted_tunnel_ids req.tunnel_forward_limits

unfoldable pub delete : Accounts → AuthUser → ℕ → Result Refusal (Accounts × Account)
delete s auth id = do
  guard auth.is_admin forbidden
  guard (not (id == auth.sub)) (refused own_account)
  target ← ok_or (find_account s id) unknown_user
  guard (not (str_eq target.role "admin" && count_admins_excluding id s.rows == 0))
      (refused last_admin)
  let gone = update_accounts (λ a. record a { deleted = true }) id s.rows
  guard (not (gone.1 == 0)) unknown_user
  ok (record s { rows = gone.0; audit = log_account s auth "user.delete" id }, target)

pub data Request : Type 0 where
  creates : CreateUserRequest → Request
  updates : ℕ → UpdateUserRequest → Request
  deletes : ℕ → Request

unfoldable pub serve : Library → Accounts → AuthUser → Request → Accounts
serve lib s auth (creates req) = after s (create lib s auth req)
serve lib s auth (updates id req) = after s (update lib s auth id req)
serve lib s auth (deletes id) = after s (delete s auth id)

abbrev pub serve_all : Library → Accounts → List (AuthUser × Request) → Accounts
serve_all lib s [] = s
serve_all lib s ((auth, req) ∷ reqs) = serve_all lib (serve lib s auth req) reqs
