-- ===== src/Panel/Rules/Handlers/Cases.antt =====
-- crates/panel-server/src/routes/rules.rs: the outcomes of a request.
use emorelay.Base.{ℕ, ◌≡◌, Bool, true, false, not, some, String, ◌==◌}
use emorelay.Base.Result.{Result, ok, err, after, after->>=, after-guard, after-ok_or, ◌>>=◌}
use emorelay.Panel.Db.{Db, DbRule, find_rule, set_enabled, soft_delete_rule}
use emorelay.Panel.Rules.{Formats, ApiError, AuthUser, Site, ensure_can_touch}
use emorelay.Panel.Rules.Create.{CreateRuleRequest}
use emorelay.Panel.Rules.Update.{UpdateRuleRequest}
use emorelay.Panel.Rules.Create.Admission.{create-cases, created_db}
use emorelay.Panel.Rules.Update.Admission.{update-cases, updated_db}
use emorelay.Panel.Rules.Create
use emorelay.Panel.Rules.Update
use emorelay.Panel.Rules.Create.Admission as Creation
use emorelay.Panel.Rules.Update.Admission as Change
use emorelay.Panel.Rules.Handlers.{
  Request, creates, updates, deletes, enables, disables, restarts, delete, set_enabled_handler,
  restart, handle, serve,
}

-- A request that may touch the rule of the id.
pub record Touched (s : Site) (auth : AuthUser) (id : ℕ) : Type 0 where
  pub existing : DbRule
  pub found : find_rule s.db id ≡ some existing
  pub touch_ok : ensure_can_touch auth existing ≡ ok tt

pub after-answer :
    {A B : Type 0} (s : Site) (P : Site → Type 0) (m : Result ApiError (Site × A)) (g : A → B)
    → P (after s m)
    → P (after s (m >>= λ done. ok (done.0, g done.1)))
after-answer s P (ok a) g p = p
after-answer s P (err e) g p = p

module _ (formats : Formats) (s : Site) (auth : AuthUser) (P : Db → Type 0) (start : P s.db) where
  abbrev Q : Site → Type 0
  Q t = P t.db

  delete-cases :
      (id : ℕ)
      → (Touched s auth id → P (soft_delete_rule s.db id).0)
      → P (after s (delete s auth id)).db
  unfolding delete
  delete-cases id k = after-ok_or s Q start (find_rule s.db id) _ _ (λ existing a.
      after->>= s Q start (ensure_can_touch auth existing) _ (λ u b.
        after-guard s Q start (not ((soft_delete_rule s.db id).1 == 0)) _ _
          (λ c. k (record { existing = existing; found = a; touch_ok = b }))))

  set_enabled_handler-cases :
      (id : ℕ) (on : Bool) (action : String)
      → (Touched s auth id → P (set_enabled s.db id on).0)
      → P (after s (set_enabled_handler formats s auth id on action)).db
  unfolding set_enabled_handler
  set_enabled_handler-cases id on action k =
      after-ok_or s Q start (find_rule s.db id) _ _ (λ existing a.
        after->>= s Q start (ensure_can_touch auth existing) _ (λ u b.
          after-guard s Q start (not ((set_enabled s.db id on).1 == 0)) _ _
            (λ c. k (record { existing = existing; found = a; touch_ok = b }))))

  restart-cases : (id : ℕ) → P (after s (restart s auth id)).db
  unfolding restart
  restart-cases id =
      after-ok_or s Q start (find_rule s.db id) _ _
        (λ rule a. after->>= s Q start (ensure_can_touch auth rule) _ (λ u b. start))

  -- What a request does to the tables: nothing, or what one of the handlers writes.
  pub serve-cases :
      (req : Request)
      → ((r : CreateRuleRequest) (a : Creation.Admitted formats s auth r)
          → P (created_db formats s auth r a.placed.inserted a.targets))
      → ((id : ℕ) (r : UpdateRuleRequest) (a : Change.Admitted formats s auth id r)
          → P (updated_db formats s auth id r a.profile a.targets))
      → ((id : ℕ) → Touched s auth id → P (soft_delete_rule s.db id).0)
      → ((id : ℕ) (on : Bool) → Touched s auth id → P (set_enabled s.db id on).0)
      → P (serve formats s auth req).db
  unfolding serve handle
  serve-cases (creates r) c u d e =
      after-answer s Q (Create.create formats s auth r) _
        (create-cases formats s auth r Q start (λ a rule f. c r a))
  serve-cases (updates id r) c u d e =
      after-answer s Q (Update.update formats s auth id r) _
        (update-cases formats s auth id r Q start (λ a rule f. u id r a))
  serve-cases (deletes id) c u d e = delete-cases id (d id)
  serve-cases (enables id) c u d e = set_enabled_handler-cases id true "rule.enable" (e id true)
  serve-cases (disables id) c u d e = set_enabled_handler-cases id false "rule.disable" (e id false)
  serve-cases (restarts id) c u d e = restart-cases id
