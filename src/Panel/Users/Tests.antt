-- ===== src/Panel/Users/Tests.antt =====
-- crates/panel-server/src/routes/users.rs: requests on two administrators and a user.
use emorelay.Base.{ℕ, ◌≡◌, refl, true, false, Option, none, some, List, [], ◌∷◌, String, any, arith}
use emorelay.Base.Text.{trim}
use emorelay.Base.Result.{Result, ok, err}
use emorelay.Panel.Sample.{db}
use emorelay.Panel.Rules.{AuthUser}
use emorelay.Panel.Users.{
  Account, Accounts, Library, Refusal, refused, last_admin, own_role, username_taken, bad_expiry,
  forbidden, insert_account, update_accounts, count_admins_excluding, normalize_datetime,
}
use emorelay.Panel.Users.Handlers.{
  Request, creates, updates, deletes, create, update, delete, finish, check_role, serve, serve_all,
  CreateUserRequest, UpdateUserRequest,
}
use emorelay.Panel.Users.Admins.{Administered, serve_all-Administered}
use emorelay.Panel.Users.Own.{is_own, serve-is_own}

abbrev lib : Library
lib = record { hash_password = λ p. some p; parse_from_str = λ format s. none }

abbrev account : ℕ → String → String → Account
account id username role = record {
  id = id;
  username = username;
  password_hash = "x";
  role = role;
  expires_at = none;
  traffic_limit_bytes_30d = none;
  must_change_password = false;
  quota_reset_day = none;
  forward_rules_quota = none;
  deleted = false;
}

abbrev site : Accounts
site = record {
  rows = account 1 "ada" "admin" ∷ account 2 "bob" "user" ∷ [];
  next_user_id = 3;
  db = db;
  grants = record { nodes = []; tunnels = [] };
  audit = [];
}

abbrev ada : AuthUser
ada = record { sub = 1; is_admin = true }

-- An administrator of another session, whose account is gone.
abbrev gone : AuthUser
gone = record { sub = 9; is_admin = true }

abbrev error_of : Result Refusal (Accounts × Account) → Option Refusal
error_of (ok a) = none
error_of (err e) = some e

abbrev eve : CreateUserRequest
eve = record {
  username = " eve ";
  password = "12345678";
  role = "admin";
  expires_at = some "";
  traffic_limit_bytes_30d = none;
  quota_reset_day = none;
  forward_rules_quota = none;
  granted_node_ids = some (1 ∷ 1 ∷ []);
  granted_tunnel_ids = none;
  tunnel_forward_limits = none;
}

abbrev demote : UpdateUserRequest
demote = record {
  password = none;
  role = some "user";
  expires_at = none;
  traffic_limit_bytes_30d = none;
  quota_reset_day = none;
  forward_rules_quota = none;
  granted_node_ids = none;
  granted_tunnel_ids = none;
  tunnel_forward_limits = none;
}

created : error_of (create lib site ada eve) ≡ none
unfolding create finish insert_account trim
created = refl

taken :
    error_of (create lib site ada (record eve { username = "bob" })) ≡ some (refused username_taken)
unfolding create finish insert_account trim
taken = refl

not_allowed : error_of (create lib site (record { sub = 2; is_admin = false }) eve) ≡ some forbidden
unfolding create
not_allowed = refl

last_demoted : error_of (update lib site gone 1 demote) ≡ some (refused last_admin)
unfolding update check_role count_admins_excluding
last_demoted = refl

last_deleted : error_of (delete site gone 1) ≡ some (refused last_admin)
unfolding delete count_admins_excluding
last_deleted = refl

self_demoted : error_of (update lib site ada 1 demote) ≡ some (refused own_role)
unfolding update check_role count_admins_excluding
self_demoted = refl

bad_date :
    error_of (update lib site ada 2 (record demote { role = none; expires_at = some "soon" }))
    ≡ some (refused bad_expiry)
unfolding update check_role normalize_datetime
bad_date = refl

user_deleted : error_of (delete site ada 2) ≡ none
unfolding delete update_accounts
user_deleted = refl

site-Administered : Administered site
site-Administered = record {
  distinct = (omega arith, (refl, tt), (omega arith, tt, tt));
  admin = refl;
}

-- A second administrator comes, and deletes the first.
abbrev takeover : List (AuthUser × Request)
takeover =
    (ada, creates eve)
    ∷ (record { sub = 3; is_admin = true }, deletes 1)
    ∷ (record { sub = 3; is_admin = true }, updates 3 demote)
    ∷ []

serve_all-Administered_example : Administered (serve_all lib site takeover)
serve_all-Administered_example = serve_all-Administered lib site takeover site-Administered

serve-is_own_example : any (is_own 1) (serve lib site ada (updates 1 demote)).rows ≡ true
serve-is_own_example = serve-is_own lib site ada (updates 1 demote) site-Administered refl
