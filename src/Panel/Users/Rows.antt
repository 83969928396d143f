-- ===== src/Panel/Users/Rows.antt =====
-- The rows of accounts: ids that are unique, and updates of one row.
use emorelay.Base.{
  ℕ, suc, ◌<◌, ◌≡◌, refl, sym, ap, subst, ◌∙◌, Bool, true, false, not, ◌&&◌, ◌||◌, some, List, [],
  ◌∷◌, ◌++◌, ◌==◌, ==_iff, if◌then◌else◌, any, All, unwrap_or, arith, Bool-cases, inl, inr,
}
use emorelay.Panel.Db.{first}
use emorelay.Panel.Users.{Account, is_admin_row, update_accounts, count_admins_excluding}

-- The ids are below the next one, and no two are the same.
abbrev pub Distinct : ℕ → List Account → Type 0
Distinct n [] = Unit
Distinct n (a ∷ rows) = (a.id < n) × All (λ o. (o.id == a.id) ≡ false) rows × Distinct n rows

vacuous :
    (id : ℕ) (rows : List Account) (e : Account)
    → All (λ o. (o.id == id) ≡ false) rows
    → All (λ a. (a.id == id && not a.deleted) ≡ true → a ≡ e) rows
vacuous id [] e h = tt
vacuous id (a ∷ rows) e (x, h) = ((λ t. absurd (ground (arith, x, t))), vacuous id rows e h)

-- The live row of an id is the only one.
pub found-only :
    (n id : ℕ) (rows : List Account) (e : Account)
    → Distinct n rows
    → first (λ a. a.id == id && not a.deleted) rows ≡ some e
    → All (λ a. (a.id == id && not a.deleted) ≡ true → a ≡ e) rows
found-only n id [] e h s = tt
found-only n id (a ∷ rows) e (low, other, h) s = elim (Bool-cases (a.id == id && not a.deleted)) [
  | inl t ↦
      let one : some a ≡ some e = ap (λ b. if b then some a else first live rows) (sym t) ∙ s in
      let same : a.id ≡ id = (==_iff a.id id).0 (ground (arith, t)) in
      (
        (λ u. ap (λ o. unwrap_or o a) one),
        vacuous id rows e (subst (λ i. All (λ o. (o.id == i) ≡ false) rows) same other),
      )
  | inr t ↦ (
    (λ u. absurd (ground (arith, t, u))),
    found-only n id rows e h (ap (λ b. if b then some a else first live rows) (sym t) ∙ s),
  )
]
  where
    live : Account → Bool
    live a = a.id == id && not a.deleted

pub Distinct-append :
    (n : ℕ) (rows : List Account) (a : Account)
    → Distinct n rows
    → a.id ≡ n
    → Distinct (suc n) (rows ++ (a ∷ []))
Distinct-append n [] a h e = (ground (arith, e), tt, tt)
Distinct-append n (r ∷ rows) a (low, other, h) e = (
  ground (arith, low),
  ids-append r.id rows a other (ground (arith, low, e)),
  Distinct-append n rows a h e,
)
  where
    ids-append :
        (id : ℕ) (rows : List Account) (a : Account)
        → All (λ o. (o.id == id) ≡ false) rows
        → (a.id == id) ≡ false
        → All (λ o. (o.id == id) ≡ false) (rows ++ (a ∷ []))
    ids-append id [] a h e = (e, tt)
    ids-append id (o ∷ rows) a (x, h) e = (x, ids-append id rows a h e)

pub any-append :
    (p : Account → Bool) (rows : List Account) (a : Account)
    → any p rows ≡ true
    → any p (rows ++ (a ∷ [])) ≡ true
any-append p [] a h = ground (arith, h)
any-append p (r ∷ rows) a h = elim (Bool-cases (p r)) [
  | inl e ↦ rw e refl
  | inr e ↦ ground (arith, e, h, any-append p rows a (ground (arith, e, h)))
]

module _ (f : Account → Account) (id : ℕ) where
  ids-update_accounts :
      ((a : Account) → (f a).id ≡ a.id)
      → (j : ℕ) (rows : List Account) → All (λ o. (o.id == j) ≡ false) rows
      → All (λ o. (o.id == j) ≡ false) (update_accounts f id rows).0
  unfolding update_accounts
  ids-update_accounts k j [] h = tt
  ids-update_accounts k j (a ∷ rows) (x, h) = elim (Bool-cases (a.id == id && not a.deleted)) [
    | inl t ↦ rw (t, if◌then◌else◌) (ap (λ i. i == j) (k a) ∙ x, ids-update_accounts k j rows h)
    | inr t ↦ rw (t, if◌then◌else◌) (x, ids-update_accounts k j rows h)
  ]

  pub Distinct-update_accounts :
      ((a : Account) → (f a).id ≡ a.id)
      → (n : ℕ) (rows : List Account) → Distinct n rows
      → Distinct n (update_accounts f id rows).0
  unfolding update_accounts
  Distinct-update_accounts k n [] h = tt
  Distinct-update_accounts k n (a ∷ rows) (low, other, h) =
      elim (Bool-cases (a.id == id && not a.deleted)) [
        | inl t ↦
            rw (t, if◌then◌else◌)
              (
                subst (λ i. i < n) (sym (k a)) low,
                subst (λ i. All (λ o. (o.id == i) ≡ false) (update_accounts f id rows).0)
                    (sym (k a)) (ids-update_accounts k a.id rows other),
                Distinct-update_accounts k n rows h,
              )
        | inr t ↦
            rw (t, if◌then◌else◌)
              (low, ids-update_accounts k a.id rows other, Distinct-update_accounts k n rows h)
      ]

  -- An update after which each row that it changes still passes, if it did.
  pub any-update_accounts :
      (p : Account → Bool) (rows : List Account)
      → All (λ a. (a.id == id && not a.deleted) ≡ true → p a ≡ true → p (f a) ≡ true) rows
      → any p rows ≡ true
      → any p (update_accounts f id rows).0 ≡ true
  unfolding update_accounts
  any-update_accounts p [] k h = ground (arith, h)
  any-update_accounts p (a ∷ rows) (x, k) h = elim (Bool-cases (p a)) [
    | inl e ↦ elim (Bool-cases (a.id == id && not a.deleted)) [
      | inl t ↦ rw (t, if◌then◌else◌) (rw (x t e) refl)
      | inr t ↦ rw (t, if◌then◌else◌) (rw e refl)
    ]
    | inr e ↦
        let rest = any-update_accounts p rows k (ap (λ b. b || any p rows) (sym e) ∙ h) in
        elim (Bool-cases (a.id == id && not a.deleted)) [
          | inl t ↦ rw (t, if◌then◌else◌) (ground (arith, rest))
          | inr t ↦ rw (t, if◌then◌else◌) (ground (arith, rest))
        ]
  ]

  -- An administrator of another id stays one, whatever the update does.
  pub others-update_accounts :
      (rows : List Account)
      → (count_admins_excluding id rows == 0) ≡ false
      → any is_admin_row (update_accounts f id rows).0 ≡ true
  unfolding update_accounts count_admins_excluding
  others-update_accounts [] h = ground (arith, h)
  others-update_accounts (a ∷ rows) h = elim (Bool-cases (is_admin_row a && not (a.id == id))) [
    | inl e ↦
        let untouched : (a.id == id && not a.deleted) ≡ false = ground (arith, e) in
        rw (untouched, if◌then◌else◌) (ground (arith, e))
    | inr e ↦
        let rest = others-update_accounts rows (
          ap
            (λ b.
              (if b then suc (count_admins_excluding id rows) else count_admins_excluding id rows)
              == 0)
            (sym e)
          ∙ h) in
        elim (Bool-cases (a.id == id && not a.deleted)) [
          | inl t ↦ rw (t, if◌then◌else◌) (ground (arith, rest))
          | inr t ↦ rw (t, if◌then◌else◌) (ground (arith, rest))
        ]
  ]
