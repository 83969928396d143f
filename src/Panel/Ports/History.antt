-- ===== src/Panel/Ports/History.antt =====
-- Through any creations, updates and deletions, no two live rules claim the same listener.
use emorelay.Base.{
  ℕ, ◌≡◌, refl, sym, subst, Bool, true, Option, none, some, List, [], ◌∷◌, String, unwrap_or,
  Option-cases, inl, inr,
}
use emorelay.Panel.Db.{
  Db, DbRule, Node, Fields, set_enabled, soft_delete_rule, set_targets, set_send_proxy_protocol,
  set_remote_af, find_rule,
}
use emorelay.Panel.Ports.{create_checked, update_checked}
use emorelay.Panel.Ports.Table.{
  IsTable, create_checked-IsTable, weaker-IsTable, found-id, update_checked-IsTable,
}

-- What the panel does to the table of rules; an edit is one of the small updates after it.
pub data Op : Type 0 where
  creates : DbRule → Op
  updates : Node → List ℕ → ℕ → Fields → Op
  retargets : ℕ → Option String → String → Op
  proxies : ℕ → Bool → Op
  prefers : ℕ → String → Op
  enables : ℕ → Bool → Op
  deletes : ℕ → Op

-- A refused operation changes nothing.
abbrev pub step : Db → Op → Db
step db (creates r) = unwrap_or (create_checked db r) db
step db (updates node reserved id u) = elim (find_rule db id) [
  | none ↦ db
  | some existing ↦ unwrap_or (update_checked db node reserved existing u) db
]
step db (retargets id extra lb) = (set_targets db id extra lb).0
step db (proxies id b) = (set_send_proxy_protocol db id b).0
step db (prefers id af) = (set_remote_af db id af).0
step db (enables id b) = (set_enabled db id b).0
step db (deletes id) = (soft_delete_rule db id).0

abbrev pub run : Db → List Op → Db
run db [] = db
run db (o ∷ os) = run (step db o) os

step-IsTable : (db : Db) (o : Op) → IsTable db → IsTable (step db o)
step-IsTable db (creates r) t = create_checked-IsTable db r t
step-IsTable db (updates node reserved id u) t = elim (Option-cases (find_rule db id)) [
  | inl e ↦ rw (e, step) t
  | inr (existing, e) ↦
      let same : existing.id ≡ id = (found-id id db.rules existing e).0 in
      rw (e, step)
        (update_checked-IsTable db node reserved existing u t
          (subst (λ i. find_rule db i ≡ some existing) (sym same) e))
]
step-IsTable db (retargets id extra lb) t =
    weaker-IsTable (λ r. record r { extra_targets = extra; lb_strategy = lb }) db id (λ r o e. e)
      (λ r. refl) t
step-IsTable db (proxies id b) t =
    weaker-IsTable (λ r. record r { send_proxy_protocol = b }) db id (λ r o e. e) (λ r. refl) t
step-IsTable db (prefers id af) t =
    weaker-IsTable (λ r. record r { remote_af = af }) db id (λ r o e. e) (λ r. refl) t
step-IsTable db (enables id b) t =
    weaker-IsTable (λ r. record r { enabled = b }) db id (λ r o e. e) (λ r. refl) t
step-IsTable db (deletes id) t =
    weaker-IsTable (λ r. record r { deleted = true }) db id (λ r o e. refl) (λ r. refl) t

-- From a table without clashes, such as the empty one, through any operations, accepted or refused: no
-- two live rules bind the same address and port of a node with protocols that need the same listener,
-- the combined protocol included.
pub run-IsTable : (db : Db) (os : List Op) → IsTable db → IsTable (run db os)
run-IsTable db [] t = t
run-IsTable db (o ∷ os) t = run-IsTable (step db o) os (step-IsTable db o t)
