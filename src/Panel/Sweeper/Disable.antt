-- ===== src/Panel/Sweeper/Disable.antt =====
-- crates/panel-server/src/sweeper/user_quota.rs: the rules after disable_rules_for_user.
use emorelay.Base.{
  ℕ, ◌≡◌, refl, sym, subst, ap, ◌∙◌, Bool, true, false, ◌&&◌, ◌||◌, ◌==◌, ==_iff, List, [], ◌∷◌,
  ◌++◌, if◌then◌else◌, arith, Bool-cases, List-cases, inl, inr, All, All-intro, none, contains,
  length, String,
}
use emorelay.Panel.Db.{DbRule}
use emorelay.Panel.Ports.Exclusion.{Fresh}
use emorelay.Panel.Rules.{Formats, Site, AuditEntry}
use emorelay.Panel.Sweeper.{is_on, enabled_ids, stop_ids, disable_rules_for_user, disable_each}

-- The rules that are on of the owners that pass are off, and nothing else differs.
abbrev pub switch_off : (ℕ → Bool) → List DbRule → List DbRule
switch_off p [] = []
switch_off p (r ∷ rules) =
    let rest = switch_off p rules in
    if p r.user_id && is_on r then record r { enabled = false } ∷ rest else r ∷ rest

-- Two tests agree on the owners of the rules that are on.
abbrev pub Agree : (DbRule → Bool) → (DbRule → Bool) → List DbRule → Type 0
Agree p q rules = All (λ r. is_on r ≡ true → p r ≡ q r) rules

pub switch_off-Agree :
    (p q : ℕ → Bool) (rules : List DbRule)
    → Agree (λ r. p r.user_id) (λ r. q r.user_id) rules
    → switch_off p rules ≡ switch_off q rules
switch_off-Agree p q [] a = refl
switch_off-Agree p q (r ∷ rules) (x, a) = elim (Bool-cases (is_on r)) [
  | inl e ↦ rw (e, x e, switch_off-Agree p q rules a) refl
  | inr e ↦ rw (e, switch_off-Agree p q rules a) (ground arith)
]

pub switch_off-switch_off :
    (p q : ℕ → Bool) (rules : List DbRule)
    → switch_off q (switch_off p rules) ≡ switch_off (λ v. p v || q v) rules
switch_off-switch_off p q [] = refl
switch_off-switch_off p q (r ∷ rules) = elim (Bool-cases (p r.user_id && is_on r)) [
  | inl e ↦ rw (e, if◌then◌else◌) (ground (arith, e, switch_off-switch_off p q rules))
  | inr e ↦ rw (e, if◌then◌else◌) (ground (arith, e, switch_off-switch_off p q rules))
]

ids-switch_off :
    (p : ℕ → Bool) (id : ℕ) (rules : List DbRule)
    → All (λ o. (o.id == id) ≡ false) rules
    → All (λ o. (o.id == id) ≡ false) (switch_off p rules)
ids-switch_off p id [] a = tt
ids-switch_off p id (r ∷ rules) (x, a) = elim (Bool-cases (p r.user_id && is_on r)) [
  | inl e ↦ rw (e, if◌then◌else◌) (x, ids-switch_off p id rules a)
  | inr e ↦ rw (e, if◌then◌else◌) (x, ids-switch_off p id rules a)
]

pub switch_off-Fresh :
    (p : ℕ → Bool) (n : ℕ) (rules : List DbRule) → Fresh n rules → Fresh n (switch_off p rules)
switch_off-Fresh p n [] f = tt
switch_off-Fresh p n (r ∷ rules) (x, a, f) = elim (Bool-cases (p r.user_id && is_on r)) [
  | inl e ↦ rw (e, if◌then◌else◌) (x, ids-switch_off p r.id rules a, switch_off-Fresh p n rules f)
  | inr e ↦ rw (e, if◌then◌else◌) (x, ids-switch_off p r.id rules a, switch_off-Fresh p n rules f)
]

stop_ids-switch_off :
    (ids : List ℕ) (p : ℕ → Bool) (rules : List DbRule)
    → Agree (λ r. contains ids r.id) (λ r. p r.user_id) rules
    → (stop_ids ids rules).0 ≡ switch_off p rules
unfolding stop_ids
stop_ids-switch_off ids p [] a = refl
stop_ids-switch_off ids p (r ∷ rules) (x, a) = elim (Bool-cases (p r.user_id && is_on r)) [
  | inl e ↦
      let both : (contains ids r.id && is_on r) ≡ true = rw (x (ground (arith, e))) e in
      rw (e, both, if◌then◌else◌)
        (ap (λ t. record r { enabled = false } ∷ t) (stop_ids-switch_off ids p rules a))
  | inr e ↦
      let both : (contains ids r.id && is_on r) ≡ false = elim (Bool-cases (is_on r)) [
        | inl on ↦ rw (x on) e
        | inr off ↦ ground (arith, off)
      ] in
      rw (e, both, if◌then◌else◌) (ap (λ t. r ∷ t) (stop_ids-switch_off ids p rules a))
]

switch_off_none :
    (p : ℕ → Bool) (rules : List DbRule)
    → Agree (λ r. false) (λ r. p r.user_id) rules
    → rules ≡ switch_off p rules
switch_off_none p [] a = refl
switch_off_none p (r ∷ rules) (x, a) =
    let no : (p r.user_id && is_on r) ≡ false = elim (Bool-cases (is_on r)) [
      | inl on ↦ ground (arith, sym (x on))
      | inr off ↦ ground (arith, off)
    ] in
    rw (no, if◌then◌else◌) (ap (λ t. r ∷ t) (switch_off_none p rules a))

enabled_ids-other :
    (u id : ℕ) (rules : List DbRule)
    → All (λ o. (o.id == id) ≡ false) rules
    → contains (enabled_ids u rules) id ≡ false
unfolding enabled_ids
enabled_ids-other u id [] a = refl
enabled_ids-other u id (r ∷ rules) (x, a) = elim (Bool-cases (r.user_id == u && is_on r)) [
  | inl e ↦ rw (e, if◌then◌else◌) (ground (arith, x, enabled_ids-other u id rules a))
  | inr e ↦ rw (e, if◌then◌else◌) (enabled_ids-other u id rules a)
]

-- A row of another id that comes first changes nothing for the others.
Agree-cons :
    (id : ℕ) (ids : List ℕ) (p : ℕ → Bool) (rules : List DbRule)
    → All (λ o. (o.id == id) ≡ false) rules
    → Agree (λ r. contains ids r.id) (λ r. p r.user_id) rules
    → Agree (λ r. contains (id ∷ ids) r.id) (λ r. p r.user_id) rules
Agree-cons id ids p [] o a = tt
Agree-cons id ids p (r ∷ rules) (x, o) (y, a) =
    ((λ e. ground (arith, x, y e)), Agree-cons id ids p rules o a)

enabled_ids-cons :
    (u : ℕ) (r : DbRule) (rules : List DbRule) (b : Bool)
    → (r.user_id == u && is_on r) ≡ b
    → enabled_ids u (r ∷ rules) ≡ (if b then r.id ∷ enabled_ids u rules else enabled_ids u rules)
unfolding enabled_ids
enabled_ids-cons u r rules b e = rw e refl

enabled_ids-Agree :
    (u n : ℕ) (rules : List DbRule)
    → Fresh n rules
    → Agree (λ r. contains (enabled_ids u rules) r.id) (λ r. r.user_id == u) rules
enabled_ids-Agree u n [] f = tt
enabled_ids-Agree u n (r ∷ rules) (x, o, f) =
    let rest = enabled_ids-Agree u n rules f in
    let put : List ℕ → Type 0 =
      λ ids. Agree (λ o. contains ids o.id) (λ o. o.user_id == u) (r ∷ rules) in
    elim (Bool-cases (r.user_id == u && is_on r)) [
      | inl e ↦ subst put (sym (enabled_ids-cons u r rules true e)) (
        (λ t. ground (arith, e, (==_iff r.id r.id).1 refl)),
        Agree-cons r.id (enabled_ids u rules) (λ v. v == u) rules o rest,
      )
      | inr e ↦
          subst put (sym (enabled_ids-cons u r rules false e))
            ((λ t. ground (arith, e, t, enabled_ids-other u r.id rules o)), rest)
    ]

pub disable_rules_for_user-rules :
    (formats : Formats) (s : Site) (u n : ℕ)
    → Fresh n s.db.rules
    → (disable_rules_for_user formats s u).0.db.rules ≡ switch_off (λ v. v == u) s.db.rules
unfolding disable_rules_for_user
disable_rules_for_user-rules formats s u n f =
    let p : ℕ → Bool = λ v. v == u in
    let put : List ℕ → Type 0 =
      λ ids. Agree (λ r. contains ids r.id) (λ r. p r.user_id) s.db.rules in
    let a = enabled_ids-Agree u n s.db.rules f in
    elim (List-cases (enabled_ids u s.db.rules)) [
      | inl e ↦ rw (e, if◌then◌else◌) (switch_off_none p s.db.rules (subst put e a))
      | inr (id, ids, e) ↦
          let some_on : (length (id ∷ ids) == 0) ≡ false = ground arith in
          rw (e, some_on, if◌then◌else◌)
            (stop_ids-switch_off (id ∷ ids) p s.db.rules (subst put e a))
    ]

swap : (a b : ℕ) (c : Bool) → (a == b || c) ≡ (b == a || c)
swap a b c = ground arith

pub disable_each-rules :
    (formats : Formats) (action : String) (s : Site) (users : List ℕ) (n : ℕ)
    → Fresh n s.db.rules
    → (disable_each formats action s users).0.db.rules ≡ switch_off (contains users) s.db.rules
unfolding disable_each
disable_each-rules formats action s [] n f =
    switch_off_none (contains []) s.db.rules
      (All-intro (λ r. is_on r ≡ true → false ≡ false) (λ r t. refl) s.db.rules)
disable_each-rules formats action s (u ∷ users) n f =
    let stopped = disable_rules_for_user formats s u in
    let s' = stopped.0 in
    let entry : AuditEntry = record { actor_user_id = none; action = action; target_id = u } in
    let e = disable_rules_for_user-rules formats s u n f in
    let f' = subst (Fresh n) (sym e) (switch_off-Fresh (λ v. v == u) n s.db.rules f) in
    let both =
      ap (switch_off (contains users)) e
      ∙ switch_off-switch_off (λ v. v == u) (contains users) s.db.rules
      ∙ switch_off-Agree (λ v. v == u || contains users v) (contains (u ∷ users)) s.db.rules
          (All-intro _ (λ r t. swap r.user_id u (contains users r.user_id)) s.db.rules) in
    elim (Bool-cases (stopped.1 == 0)) [
      | inl z ↦ rw (z, if◌then◌else◌) (disable_each-rules formats action s' users n f' ∙ both)
      | inr z ↦
          rw (z, if◌then◌else◌)
            (disable_each-rules formats action (record s' { audit = s'.audit ++ (entry ∷ []) })
                users n f'
              ∙ both)
    ]
