-- ===== src/Panel/Users.antt =====
-- crates/panel-server/src/routes/users.rs and models/user.rs: create, update and delete of the accounts. The
-- hash of a password and the parser of dates are parameters; the pages that only read are left out.
pub mod Handlers
pub mod Rows
pub mod Cases
pub mod Admins
pub mod Own
mod Tests
use emorelay.Base.{
  ℕ, suc, ◌+◌, ◌≡◌, Bool, true, false, not, ◌&&◌, ◌||◌, Option, none, some, List, [], ◌∷◌, ◌++◌,
  map, ◌==◌, leb, String, str_eq, if◌then◌else◌, is_some, any, unwrap_or,
}
use emorelay.Base.Signed.{ℤ, pos, negsuc}
use emorelay.Base.Result.{Result, ok, err, ◌>>=◌, ◌>>◌, guard, require, ok_or, after}
use emorelay.Base.Text.{trim, len, all_chars, is_whitespace, is_empty}
use emorelay.Panel.Db.{Db, coalesce, clear_or_set_int, first}
use emorelay.Panel.Grants.{Grants, set_node_grants, set_tunnel_grants}
use emorelay.Panel.Rules.{AuthUser, AuditEntry}
use emorelay.Panel.Rules.Create.{is_negative, positive_only}

-- A row of `users`, with the columns that these handlers write.
pub record Account : Type 0 where
  pub id : ℕ
  pub username : String
  pub password_hash : String
  pub role : String
  pub expires_at : Option String
  pub traffic_limit_bytes_30d : Option ℤ
  pub must_change_password : Bool
  pub quota_reset_day : Option ℤ
  pub forward_rules_quota : Option ℤ
  pub deleted : Bool

pub record Accounts : Type 0 where
  pub rows : List Account
  pub next_user_id : ℕ
  pub db : Db
  pub grants : Grants
  pub audit : List AuditEntry

pub data Cause : Type 0 where
  bad_username bad_password bad_role bad_reset_day negative_quota bad_expiry negative_limit : Cause
  username_taken own_role last_admin own_account : Cause

pub data Refusal : Type 0 where
  forbidden unknown_user hash_failed : Refusal
  refused : Cause → Refusal

-- What other libraries do: argon2 may fail, and chrono reads a date by a format and prints it.
pub record Library : Type 0 where
  pub hash_password : String → Option String
  pub parse_from_str : String → String → Option String

abbrev pub is_admin_row : Account → Bool
is_admin_row a = str_eq a.role "admin" && not a.deleted

-- `User::find_by_id`
abbrev pub find_account : Accounts → ℕ → Option Account
find_account s id = first (λ a. a.id == id && not a.deleted) s.rows

-- An UPDATE of the live row of an id, with the number of the rows.
unfoldable pub update_accounts : (Account → Account) → ℕ → List Account → List Account × ℕ
update_accounts f id [] = ([], 0)
update_accounts f id (a ∷ rows) =
    let rest = update_accounts f id rows in
    if a.id == id && not a.deleted then (f a ∷ rest.0, suc rest.1) else (a ∷ rest.0, rest.1)

unfoldable pub count_admins_excluding : ℕ → List Account → ℕ
count_admins_excluding id [] = 0
count_admins_excluding id (a ∷ rows) =
    let rest = count_admins_excluding id rows in
    if is_admin_row a && not (a.id == id) then suc rest else rest

-- `User::create`: the unique index on the names of live rows may refuse the row.
unfoldable pub insert_account : List Account → Account → Option (List Account)
insert_account rows a =
    if any (λ o. str_eq o.username a.username && not o.deleted) rows
    then none
    else some (rows ++ (a ∷ []))

-- `User::update`: a new password is for one login; an empty date and a limit of 0 clear.
unfoldable pub with_changes :
    Option String → Option String → Option String → Option ℤ → Account → Account
with_changes hash role expires limit a = record a {
  password_hash = coalesce hash a.password_hash;
  must_change_password = is_some hash || a.must_change_password;
  role = coalesce role a.role;
  expires_at = elim expires [ none ↦ a.expires_at | some t ↦ if is_empty t then none else some t ];
  traffic_limit_bytes_30d = clear_or_set_int limit a.traffic_limit_bytes_30d;
}

abbrev pub char_count : String → ℕ
char_count String.[] = 0
char_count (String.◌∷◌ c s) = suc (char_count s)

abbrev pub is_username : String → Bool
is_username u =
    (leb 3 (char_count u) && leb (char_count u) 32) && all_chars (λ c. not (is_whitespace c)) u

-- At least eight bytes.
abbrev pub is_password : String → Bool
is_password p = leb 8 (len p)

abbrev pub is_role : String → Bool
is_role r = str_eq r "admin" || str_eq r "user"

-- None, 0, or 1 to 31.
abbrev pub is_reset_day : Option ℤ → Bool
is_reset_day none = true
is_reset_day (some (pos d)) = leb d 31
is_reset_day (some (negsuc n)) = false

-- `filter(|d| (1..=31).contains(d))`
abbrev pub month_day : Option ℤ → Option ℤ
month_day none = none
month_day (some (pos d)) = if leb 1 d && leb d 31 then some (pos d) else none
month_day (some (negsuc n)) = none

-- `if d == 0 { None } else { Some(d) }`
abbrev pub non_zero : ℤ → Option ℤ
non_zero (pos d) = if d == 0 then none else some (pos d)
non_zero (negsuc n) = some (negsuc n)

abbrev pub first_some : (String → Option String) → List String → Option String
first_some f [] = none
first_some f (x ∷ xs) = elim (f x) [ none ↦ first_some f xs | some y ↦ some y ]

unfoldable pub normalize_datetime : Library → String → Option String
normalize_datetime lib s =
    first_some (λ format. lib.parse_from_str format (trim s))
      ("%Y-%m-%dT%H:%M" ∷ "%Y-%m-%dT%H:%M:%S" ∷ "%Y-%m-%d %H:%M:%S" ∷ [])

-- The entries of the map: a later one of the same tunnel takes the place of an earlier one.
abbrev pub limit_of : Option ℤ → List (ℕ × Option ℤ) → ℕ → Option ℤ
limit_of found [] id = found
limit_of found ((tid, limit) ∷ limits) id =
    limit_of (if tid == id then positive_only limit else found) limits id

abbrev pub build_tunnel_grants : List ℕ → Option (List (ℕ × Option ℤ)) → List (ℕ × Option ℤ)
build_tunnel_grants ids limits = map (λ id. (id, limit_of none (unwrap_or limits []) id)) ids
