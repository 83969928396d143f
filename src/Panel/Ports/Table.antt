-- ===== src/Panel/Ports/Table.antt =====
-- Each operation on the rules keeps the table without clashes.
use emorelay.Base.{
  ℕ, suc, ◌≡◌, refl, sym, ap, ap₂, subst, ◌∙◌, Bool, true, false, not, ◌&&◌, ◌||◌, none, some, List,
  [], ◌∷◌, ◌++◌, String, str_eq, ◌==◌, ==_iff, if◌then◌else◌, ltb, contains, any, any-false, All,
  All-append, unwrap_or, arith, Bool-cases, inl, inr,
}
use emorelay.Panel.Db.{Db, DbRule, Node, Fields, with_fields, update_rule, find_rule, first}
use emorelay.Panel.Db.Updates.{with_fields-kept}
use emorelay.Panel.Ports.{
  excludes, same_port, is_excluded, ensure_no_protocol_conflict, is_unique, insert_rule,
  create_checked, update_checked,
}
use emorelay.Panel.Ports.Exclusion.{
  clash, ClearOf, NoClash, Fresh, checked-clear, NoClash-append, NoClash-weaker, NoClash-Becomes,
  Fresh-update_rows, Becomes,
}

pub record IsTable (db : Db) : Type 0 where
  pub no_clash : NoClash db.rules
  pub fresh : Fresh db.next_rule_id db.rules

create-ClearOf :
    (row : DbRule) (rules : List DbRule)
    → Fresh row.id rules
    → All
        (λ o.
          (same_port row.node_id row.listen_ip row.listen_port o
            && (excludes row.protocol o.protocol && not (is_excluded none o)))
          ≡ false)
        rules
    → All
        (λ o.
          (not (o.id == row.id)
            && (same_port row.node_id row.listen_ip row.listen_port o
                && str_eq o.protocol row.protocol))
          ≡ false)
        rules
    → ClearOf row rules
create-ClearOf row [] h a b = tt
create-ClearOf row (o ∷ rules) (low, other, h) (a, x) (b, y) =
    (checked-clear row o none a b refl (ground (arith, low)), create-ClearOf row rules h x y)

Fresh-append :
    (n : ℕ) (rules : List DbRule) (row : DbRule)
    → Fresh n rules
    → row.id ≡ n
    → Fresh (suc n) (rules ++ (row ∷ []))
Fresh-append n [] row h e = (ground (arith, e), tt, tt)
Fresh-append n (r ∷ rules) row (low, other, h) e = (
  omega (arith, low),
  All-append (λ o. (o.id == r.id) ≡ false) rules (row ∷ []) other (ground (arith, low, e), tt),
  Fresh-append n rules row h e,
)

pub create_checked-IsTable :
    (db : Db) (r : DbRule) → IsTable db → IsTable (unwrap_or (create_checked db r) db)
unfolding create_checked insert_rule ensure_no_protocol_conflict is_unique
create_checked-IsTable db r t =
    let row = record r { id = db.next_rule_id; deleted = false } in
    let p : DbRule → Bool = λ o.
      same_port r.node_id r.listen_ip r.listen_port o
      && (excludes r.protocol o.protocol && not (is_excluded none o)) in
    let q : DbRule → Bool = λ o.
      not (o.id == db.next_rule_id)
      && (same_port r.node_id r.listen_ip r.listen_port o && str_eq o.protocol r.protocol) in
    elim (Bool-cases (any p db.rules)) [
      | inl e ↦ rw (e, if◌then◌else◌) t
      | inr e ↦ elim (Bool-cases (any q db.rules)) [
        | inl f ↦ rw (e, f, if◌then◌else◌) t
        | inr f ↦
            rw (e, f, if◌then◌else◌)
              (record {
                no_clash = NoClash-append db.rules row t.no_clash (
                    create-ClearOf row db.rules t.fresh (any-false p db.rules e)
                      (any-false q db.rules f));
                fresh = Fresh-append db.next_rule_id db.rules row t.fresh refl;
              })
      ]
    ]

pub weaker-IsTable :
    (f : DbRule → DbRule) (db : Db) (id : ℕ)
    → ((r o : DbRule) → clash r o ≡ false → clash (f r) o ≡ false)
    → ((r : DbRule) → (f r).id ≡ r.id)
    → IsTable db
    → IsTable (update_rule f db id).0
weaker-IsTable f db id w k t = record {
  no_clash = NoClash-weaker f id w db.rules t.no_clash;
  fresh = Fresh-update_rows f id k db.next_rule_id db.rules t.fresh;
}

vacuous :
    (id : ℕ) (rules : List DbRule) (e : DbRule)
    → All (λ o. (o.id == id) ≡ false) rules
    → All (λ r. (r.id == id && not r.deleted) ≡ true → r ≡ e) rules
vacuous id [] e a = tt
vacuous id (r ∷ rules) e (x, a) = ((λ t. absurd (ground (arith, x, t))), vacuous id rules e a)

-- The live row of an id is the only one.
pub found-only :
    (n id : ℕ) (rules : List DbRule) (e : DbRule)
    → Fresh n rules
    → first (λ r. r.id == id && not r.deleted) rules ≡ some e
    → All (λ r. (r.id == id && not r.deleted) ≡ true → r ≡ e) rules
found-only n id [] e h s = tt
found-only n id (r ∷ rules) e (low, other, h) s = elim (Bool-cases (r.id == id && not r.deleted)) [
  | inl t ↦
      let one : some r ≡ some e = ap (λ b. if b then some r else first live rules) (sym t) ∙ s in
      let same : r.id ≡ id = (==_iff r.id id).0 (ground (arith, t)) in
      (
        (λ u. ap (λ o. unwrap_or o r) one),
        vacuous id rules e (subst (λ i. All (λ o. (o.id == i) ≡ false) rules) same other),
      )
  | inr t ↦ (
    (λ u. absurd (ground (arith, t, u))),
    found-only n id rules e h (ap (λ b. if b then some r else first live rules) (sym t) ∙ s),
  )
]
  where
    live : DbRule → Bool
    live r = r.id == id && not r.deleted

pub found-id :
    (id : ℕ) (rules : List DbRule) (e : DbRule)
    → first (λ r. r.id == id && not r.deleted) rules ≡ some e
    → (e.id ≡ id) × (e.deleted ≡ false)
found-id id [] e s = ground (arith, s)
found-id id (r ∷ rules) e s = elim (Bool-cases (r.id == id && not r.deleted)) [
  | inl t ↦
      let one : some r ≡ some e = ap (λ b. if b then some r else first live rules) (sym t) ∙ s in
      let same : r ≡ e = ap (λ o. unwrap_or o r) one in
      (
        ap (λ (x : DbRule). x.id) (sym same) ∙ (==_iff r.id id).0 (ground (arith, t)),
        ap (λ (x : DbRule). x.deleted) (sym same) ∙ ground (arith, t),
      )
  | inr t ↦ found-id id rules e (ap (λ b. if b then some r else first live rules) (sym t) ∙ s)
]
  where
    live : DbRule → Bool
    live r = r.id == id && not r.deleted

update-Checked :
    (new : DbRule) (id : ℕ) (rules : List DbRule)
    → new.id ≡ id
    → All
        (λ o.
          (same_port new.node_id new.listen_ip new.listen_port o
            && (excludes new.protocol o.protocol && not (is_excluded (some id) o)))
          ≡ false)
        rules
    → All
        (λ o.
          (not (o.id == new.id)
            && (same_port new.node_id new.listen_ip new.listen_port o
                && str_eq o.protocol new.protocol))
          ≡ false)
        rules
    → All (λ o. (o.id == id) ≡ false → clash new o ≡ false) rules
update-Checked new id [] s a b = tt
update-Checked new id (o ∷ rules) s (a, x) (b, y) = (
  (λ d. checked-clear new o (some id) a b d (ap (λ i. o.id == i) s ∙ d)),
  update-Checked new id rules s x y,
)

becomes :
    (u : Fields) (id : ℕ) (rules : List DbRule) (e : DbRule)
    → All (λ r. (r.id == id && not r.deleted) ≡ true → r ≡ e) rules
    → Becomes (with_fields u) id (with_fields u e) rules
becomes u id [] e a = tt
becomes u id (r ∷ rules) e (x, a) = ((λ t. ap (with_fields u) (x t)), becomes u id rules e a)

-- The rows that the two checks of an update refuse.
abbrev conflicting : ℕ → String → String → ℕ → ℕ → DbRule → Bool
conflicting node_id protocol ip port id o =
    same_port node_id ip port o && (excludes protocol o.protocol && not (is_excluded (some id) o))

abbrev doubled : DbRule → DbRule → Bool
doubled new o =
    not (o.id == new.id)
    && (same_port new.node_id new.listen_ip new.listen_port o && str_eq o.protocol new.protocol)

pub update_checked-IsTable :
    (db : Db) (node : Node) (reserved : List ℕ) (existing : DbRule) (u : Fields)
    → IsTable db
    → find_rule db existing.id ≡ some existing
    → IsTable (unwrap_or (update_checked db node reserved existing u) db)
unfolding update_checked ensure_no_protocol_conflict is_unique
update_checked-IsTable db node reserved existing u t found =
    let new = with_fields u existing in
    let id = existing.id in
    let kept = with_fields-kept u existing in
    let out = ltb new.listen_port node.port_pool_min || ltb node.port_pool_max new.listen_port in
    elim (Bool-cases out) [
      | inl a ↦ rw (a, if◌then◌else◌) t
      | inr a ↦ elim (Bool-cases (contains reserved new.listen_port)) [
        | inl b ↦ rw (a, b, if◌then◌else◌) t
        | inr b ↦
            elim (Bool-cases (
              any (conflicting existing.node_id existing.protocol new.listen_ip new.listen_port id)
                db.rules)) [
                  | inl c ↦ rw (a, b, c, if◌then◌else◌) t
                  | inr c ↦ elim (Bool-cases (any (doubled new) db.rules)) [
                    | inl d ↦ rw (a, b, c, d, if◌then◌else◌) t
                    | inr d ↦
                        rw (a, b, c, d, if◌then◌else◌)
                          (record {
                            no_clash =
                                NoClash-Becomes (with_fields u) id new db.next_rule_id db.rules
                                  t.fresh t.no_clash
                                  (becomes u id db.rules existing
                                    (found-only db.next_rule_id id db.rules existing t.fresh found))
                                  (update-Checked new id db.rules kept.0
                                    (any-false
                                      (conflicting new.node_id new.protocol new.listen_ip
                                        new.listen_port id)
                                      db.rules
                                      (ap₂
                                          (λ n s.
                                            any (conflicting n s new.listen_ip new.listen_port id)
                                              db.rules)
                                          kept.2 kept.3
                                        ∙ c))
                                    (any-false (doubled new) db.rules d));
                            fresh =
                                Fresh-update_rows (with_fields u) id (λ r. (with_fields-kept u r).0)
                                  db.next_rule_id db.rules t.fresh;
                          })
                  ]
                ]
      ]
    ]
