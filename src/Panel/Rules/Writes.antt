-- ===== src/Panel/Rules/Writes.antt =====
-- crates/panel-server/src/routes/rules.rs: the writes of a request, one by one.
use emorelay.Base.{
  ℕ, suc, ◌≡◌, refl, sym, ap, ◌∙◌, Bool, true, false, not, ◌||◌, Option, none, some, [], ◌∷◌, ◌++◌,
  String, str_eq, is_some, if◌then◌else◌, unwrap_or, Bool-cases, inl, inr, arith,
}
use emorelay.Base.Result.{Result, ok, guard, ◌>>◌}
use emorelay.Panel.Db.{Db, DbRule, set_targets, set_send_proxy_protocol, set_remote_af}
use emorelay.Panel.Ports.{is_unique, insert_rule}
use emorelay.Panel.Rules.Create.{write_settings}
use emorelay.Panel.Rules.Update.{UpdateRuleRequest, write_changes}
use emorelay.Panel.Rules.Update

pub guard-ok :
    {E A : Type 0} (b : Bool) (e : E) (m : Result E A) (a : A)
    → (guard b e >> m) ≡ ok a
    → (b ≡ true) × (m ≡ ok a)
guard-ok true e m a h = (refl, h)
guard-ok false e m a h = cc

pub guard-ok_only : {E : Type 0} (b : Bool) (e : E) → guard b e ≡ ok tt → b ≡ true
guard-ok_only true e h = refl
guard-ok_only false e h = cc

pub insert_rule-rules :
    (db db' : Db) (r : DbRule)
    → insert_rule db r ≡ some db'
    → db'.rules ≡ db.rules ++ (record r { id = db.next_rule_id; deleted = false } ∷ [])
unfolding insert_rule
insert_rule-rules db db' r h =
    let row = record r { id = db.next_rule_id; deleted = false } in
    let grown = record db { rules = db.rules ++ (row ∷ []); next_rule_id = suc db.next_rule_id } in
    elim (Bool-cases (is_unique db.rules row)) [
      | inl e ↦
          ap (λ o. (unwrap_or o db').rules) (sym h ∙ ap (λ b. if b then some grown else none) e)
      | inr e ↦ absurd (ground (arith, sym h ∙ ap (λ b. if b then some grown else none) e))
    ]

module _ (P : Db → Type 0) (id : ℕ) where
  pub write_settings-cases :
      (db : Db) (extra : Option String) (strat : String) (proxy : Bool)
      → P db
      → ((d : Db) → P d → P (set_targets d id extra strat).0)
      → (proxy ≡ true → (d : Db) → P d → P (set_send_proxy_protocol d id true).0)
      → P (write_settings db id (extra, strat) proxy)
  unfolding write_settings
  write_settings-cases db extra strat true p t x =
      elim (Bool-cases (is_some extra || not (str_eq strat "fifo"))) [
        | inl e ↦ rw (e, if◌then◌else◌) (x refl (set_targets db id extra strat).0 (t db p))
        | inr e ↦ rw (e, if◌then◌else◌) (x refl db p)
      ]
  write_settings-cases db extra strat false p t x =
      elim (Bool-cases (is_some extra || not (str_eq strat "fifo"))) [
        | inl e ↦ rw (e, if◌then◌else◌) (t db p)
        | inr e ↦ rw (e, if◌then◌else◌) p
      ]

  remote_af-cases :
      (db : Db) (af : Option String)
      → P db
      → ((s : String) (d : Db) → P d → P (set_remote_af d id s).0)
      → P (Update.write_remote_af db id af)
  remote_af-cases db none p a = p
  remote_af-cases db (some s) p a = a s db p

  proxy-cases :
      (db : Db) (proxy : Option Bool)
      → P db
      → ((b : Bool) → proxy ≡ some b → (d : Db) → P d → P (set_send_proxy_protocol d id b).0)
      → P (Update.write_proxy db id proxy)
  proxy-cases db none p x = p
  proxy-cases db (some b) p x = x b refl db p

  targets-cases :
      (db : Db) (targets : Option (Option String × String))
      → P db
      → ((x : Option String × String)
          → targets ≡ some x
          → (d : Db) → P d
          → P (set_targets d id x.0 x.1).0)
      → P (Update.write_targets db id targets)
  targets-cases db none p t = p
  targets-cases db (some (extra, strat)) p t = t (extra, strat) refl db p

  pub write_changes-cases :
      (db : Db) (req : UpdateRuleRequest) (targets : Option (Option String × String))
      → P db
      → ((x : Option String × String)
          → targets ≡ some x
          → (d : Db) → P d
          → P (set_targets d id x.0 x.1).0)
      → ((b : Bool)
          → req.send_proxy_protocol ≡ some b
          → (d : Db) → P d
          → P (set_send_proxy_protocol d id b).0)
      → ((s : String) (d : Db) → P d → P (set_remote_af d id s).0)
      → P (write_changes db id req targets)
  unfolding write_changes
  write_changes-cases db req targets p t x a =
      let written = Update.write_targets db id targets in
      let proxied = Update.write_proxy written id req.send_proxy_protocol in
      remote_af-cases proxied req.remote_af
        (proxy-cases written req.send_proxy_protocol (targets-cases db targets p t) x) a
