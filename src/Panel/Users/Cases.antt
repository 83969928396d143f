-- ===== src/Panel/Users/Cases.antt =====
-- crates/panel-server/src/routes/users.rs: what each handler leaves.
use emorelay.Base.{
  ℕ, suc, ◌≡◌, true, false, not, ◌&&◌, Option, some, List, ◌==◌, String, str_eq, arith,
}
use emorelay.Base.Result.{ok, require, after, after->>=, after-guard, after-ok_or}
use emorelay.Panel.Grants.{Grants}
use emorelay.Panel.Rules.{AuthUser, AuditEntry}
use emorelay.Panel.Users.{
  Account, Accounts, Library, find_account, update_accounts, count_admins_excluding, insert_account,
  with_changes,
}
use emorelay.Panel.Users.Handlers.{
  check_role, finish, create, update, delete, CreateUserRequest, UpdateUserRequest,
  changed_settings, new_settings, setting_checks, creation_checks, new_account, password_ok,
  new_expiry, changed_expiry, new_hash,
}
use emorelay.Panel.Rules.Create.{is_negative}

-- What a handler leaves: the state as it was, or other rows with other grants and one entry more.
abbrev left : Accounts → List Account → ℕ → Grants → List AuditEntry → Accounts
left s rows next grants log = record s {
  rows = rows;
  next_user_id = next;
  grants = grants;
  audit = log;
}

module _ (lib : Library) (s : Accounts) (auth : AuthUser) (P : Accounts → Type 0)
    (start : P s) where
  pub create-cases :
      (req : CreateUserRequest)
      → ((expires : Option String) (hash : String) (rows : List Account) (g : Grants)
            (log : List AuditEntry)
          → auth.is_admin ≡ true
          → insert_account s.rows (new_account s req expires hash) ≡ some rows
          → P (left s (new_settings req s.next_user_id rows) (suc s.next_user_id) g log))
      → P (after s (create lib s auth req))
  unfolding create finish
  create-cases req k = after-guard s P start auth.is_admin _ _ (λ a.
      after->>= s P start (require (creation_checks req)) _ (λ b c.
        after->>= s P start (new_expiry lib req.expires_at) _ (λ expires d.
          after-guard s P start (not (is_negative req.traffic_limit_bytes_30d)) _ _ (λ e.
            after-ok_or s P start (lib.hash_password req.password) _ _ (λ hash f.
              after-ok_or s P start (insert_account s.rows (new_account s req expires hash)) _ _
                (λ rows g.
                  after-ok_or s P start
                    (find_account
                      (record s {
                        rows = new_settings req s.next_user_id rows;
                        next_user_id = suc s.next_user_id;
                      })
                      s.next_user_id)
                    _ _ (λ x y. k expires hash rows _ _ a g)))))))

  pub update-cases :
      (id : ℕ) (req : UpdateUserRequest)
      → ((e : Account) (hash expires : Option String) (g : Grants) (log : List AuditEntry)
          → auth.is_admin ≡ true
          → find_account s id ≡ some e
          → check_role s auth id e req.role ≡ ok tt
          → P (
              left s
                (changed_settings req id
                  (update_accounts
                    (with_changes hash req.role expires req.traffic_limit_bytes_30d)
                    id
                    s.rows).0)
                s.next_user_id
                g
                log))
      → P (after s (update lib s auth id req))
  unfolding update finish
  update-cases id req k = after-guard s P start auth.is_admin _ _ (λ a.
      after-ok_or s P start (find_account s id) _ _ (λ e f.
        after-guard s P start (password_ok req.password) _ _ (λ b.
          after->>= s P start (check_role s auth id e req.role) _ (λ u c.
            after->>= s P start (changed_expiry lib req.expires_at) _ (λ expires d.
              after->>= s P start (require (setting_checks req)) _ (λ v w.
                after->>= s P start (new_hash lib req.password) _ (λ hash h.
                  let rows : List Account =
                    (update_accounts
                      (with_changes hash req.role expires req.traffic_limit_bytes_30d) id
                      s.rows).0 in
                  after-guard s P start
                    (not (
                      (update_accounts
                        (with_changes hash req.role expires req.traffic_limit_bytes_30d) id
                        s.rows).1
                      == 0))
                    _ _
                    (λ x.
                      after-ok_or s P start
                        (find_account (record s { rows = changed_settings req id rows }) id) _ _
                        (λ y z. k e hash expires _ _ a f c)))))))))

  pub delete-cases :
      (id : ℕ)
      → ((e : Account) (log : List AuditEntry)
          → (id == auth.sub) ≡ false
          → find_account s id ≡ some e
          → not (str_eq e.role "admin" && count_admins_excluding id s.rows == 0) ≡ true
          → P (
              left s
                (update_accounts (λ a. record a { deleted = true }) id s.rows).0
                s.next_user_id
                s.grants
                log))
      → P (after s (delete s auth id))
  unfolding delete
  delete-cases id k = after-guard s P start auth.is_admin _ _ (λ a.
      after-guard s P start (not (id == auth.sub)) _ _ (λ b.
        after-ok_or s P start (find_account s id) _ _ (λ e f.
          after-guard s P start
            (not (str_eq e.role "admin" && count_admins_excluding id s.rows == 0)) _ _
            (λ c.
              after-guard s P start
                (not ((update_accounts (λ a. record a { deleted = true }) id s.rows).1 == 0)) _ _
                (λ x. k e _ (ground (arith, b)) f c)))))
