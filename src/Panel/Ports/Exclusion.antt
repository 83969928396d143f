-- ===== src/Panel/Ports/Exclusion.antt =====
-- No two live rules of a node claim the same listener.
use emorelay.Base.{
  ℕ, ◌<◌, ◌≡◌, refl, sym, ap, subst, ◌∙◌, Bool, true, false, not, ◌&&◌, ◌||◌, Option, List, [], ◌∷◌,
  ◌++◌, String, str_eq, str_eq_iff, ◌==◌, ==_iff, if◌then◌else◌, All, All-append, arith, Bool-cases,
  inl, inr,
}
use emorelay.Panel.Db.{DbRule, update_rows}
use emorelay.Panel.Ports.{excludes, same_port, is_excluded}

abbrev pub uses_tcp : String → Bool
uses_tcp p = str_eq p "tcp" || str_eq p "tcp_udp"

abbrev pub uses_udp : String → Bool
uses_udp p = str_eq p "udp" || str_eq p "tcp_udp"

-- Both need the same kind of listener.
abbrev pub overlaps : String → String → Bool
overlaps p q = (uses_tcp p && uses_tcp q) || (uses_udp p && uses_udp q)

-- Two live rules that would bind the same listener of a node.
abbrev pub clash : DbRule → DbRule → Bool
clash r o =
    not r.deleted
    && (same_port r.node_id r.listen_ip r.listen_port o && overlaps r.protocol o.protocol)

abbrev pub ClearOf : DbRule → List DbRule → Type 0
ClearOf r rules = All (λ o. clash r o ≡ false) rules

-- No two rows of the table clash.
abbrev pub NoClash : List DbRule → Type 0
NoClash [] = Unit
NoClash (r ∷ rules) = ClearOf r rules × NoClash rules

-- The ids are different, and smaller than the next.
abbrev pub Fresh : ℕ → List DbRule → Type 0
Fresh n [] = Unit
Fresh n (r ∷ rules) = (r.id < n) × All (λ o. (o.id == r.id) ≡ false) rules × Fresh n rules

overlaps-caught : (p q : String) → overlaps p q ≡ true → (excludes p q || str_eq q p) ≡ true
overlaps-caught p q o = elim (Bool-cases (str_eq p "tcp")) [
  | inl e ↦ subst Goal (sym ((str_eq_iff p "tcp").0 e)) (λ h. ground (arith, h)) o
  | inr e ↦ elim (Bool-cases (str_eq p "udp")) [
    | inl f ↦ subst Goal (sym ((str_eq_iff p "udp").0 f)) (λ h. ground (arith, h)) o
    | inr f ↦
        subst Goal (sym ((str_eq_iff p "tcp_udp").0 (ground (arith, o, e, f))))
          (λ h. ground (arith, h)) o
  ]
]
  where
    Goal : String → Type 0
    Goal s = overlaps s q ≡ true → (excludes s q || str_eq q s) ≡ true

overlaps_sym : (p q : String) → overlaps p q ≡ overlaps q p
overlaps_sym p q = ground arith

str_eq_sym : (s t : String) → str_eq s t ≡ str_eq t s
str_eq_sym s t = elim (Bool-cases (str_eq s t)) [
  | inl e ↦ e ∙ sym ((str_eq_iff t s).1 (sym ((str_eq_iff s t).0 e)))
  | inr e ↦ elim (Bool-cases (str_eq t s)) [
    | inl f ↦ (str_eq_iff s t).1 (sym ((str_eq_iff t s).0 f)) ∙ sym f
    | inr f ↦ e ∙ sym f
  ]
]

clash_sym : (r o : DbRule) → clash r o ≡ clash o r
clash_sym r o =
    ground (arith, str_eq_sym r.listen_ip o.listen_ip, overlaps_sym r.protocol o.protocol)

-- What the two checks of a new row say of another row.
pub checked-clear :
    (r o : DbRule) (exclude_id : Option ℕ)
    → (same_port r.node_id r.listen_ip r.listen_port o
        && (excludes r.protocol o.protocol && not (is_excluded exclude_id o)))
      ≡ false
    → (not (o.id == r.id)
        && (same_port r.node_id r.listen_ip r.listen_port o && str_eq o.protocol r.protocol))
      ≡ false
    → is_excluded exclude_id o ≡ false
    → (o.id == r.id) ≡ false
    → clash r o ≡ false
checked-clear r o x a b c d = elim (Bool-cases (overlaps r.protocol o.protocol)) [
  | inl e ↦ ground (arith, a, b, c, d, overlaps-caught r.protocol o.protocol e)
  | inr e ↦ ground (arith, e)
]

pub NoClash-append :
    (rules : List DbRule) (row : DbRule)
    → NoClash rules
    → ClearOf row rules
    → NoClash (rules ++ (row ∷ []))
NoClash-append [] row n c = (tt, tt)
NoClash-append (r ∷ rules) row (a, n) (b, c) = (
  All-append (λ o. clash r o ≡ false) rules (row ∷ []) a (clash_sym r row ∙ b, tt),
  NoClash-append rules row n c,
)

module _ (f : DbRule → DbRule) (id : ℕ) where
  update_rows-absent :
      (rules : List DbRule)
      → All (λ o. (o.id == id) ≡ false) rules
      → (update_rows f id rules).0 ≡ rules
  update_rows-absent [] a = refl
  update_rows-absent (r ∷ rules) (a, b) = ground (arith, a, update_rows-absent rules b)

  -- Updates that add no clash.
  module _ (weaker : (r o : DbRule) → clash r o ≡ false → clash (f r) o ≡ false) where
    weaker_right : (r o : DbRule) → clash r o ≡ false → clash r (f o) ≡ false
    weaker_right r o e = clash_sym r (f o) ∙ weaker o r (clash_sym o r ∙ e)

    ClearOf-update_rows :
        (r : DbRule) (rules : List DbRule) → ClearOf r rules → ClearOf r (update_rows f id rules).0
    ClearOf-update_rows r [] c = tt
    ClearOf-update_rows r (o ∷ rules) (a, c) = elim (Bool-cases (o.id == id && not o.deleted)) [
      | inl e ↦ rw (e, if◌then◌else◌) (weaker_right r o a, ClearOf-update_rows r rules c)
      | inr e ↦ rw (e, if◌then◌else◌) (a, ClearOf-update_rows r rules c)
    ]

    ClearOf-weaker : (r : DbRule) (rules : List DbRule) → ClearOf r rules → ClearOf (f r) rules
    ClearOf-weaker r [] c = tt
    ClearOf-weaker r (o ∷ rules) (a, c) = (weaker r o a, ClearOf-weaker r rules c)

    pub NoClash-weaker : (rules : List DbRule) → NoClash rules → NoClash (update_rows f id rules).0
    NoClash-weaker [] n = tt
    NoClash-weaker (r ∷ rules) (c, n) =
        let d = ClearOf-update_rows r rules c in
        elim (Bool-cases (r.id == id && not r.deleted)) [
          | inl e ↦
              rw (e, if◌then◌else◌)
                (ClearOf-weaker r (update_rows f id rules).0 d, NoClash-weaker rules n)
          | inr e ↦ rw (e, if◌then◌else◌) (d, NoClash-weaker rules n)
        ]

  -- An update that turns the live row of the id into a row that was checked.
  module _ (new : DbRule) where
    abbrev pub Becomes : List DbRule → Type 0
    Becomes rules = All (λ r. (r.id == id && not r.deleted) ≡ true → f r ≡ new) rules

    abbrev pub Checked : List DbRule → Type 0
    Checked rules = All (λ o. (o.id == id) ≡ false → clash new o ≡ false) rules

    Checked-All :
        (rules : List DbRule)
        → Checked rules
        → All (λ o. (o.id == id) ≡ false) rules
        → ClearOf new rules
    Checked-All [] c a = tt
    Checked-All (o ∷ rules) (x, c) (y, a) = (x y, Checked-All rules c a)

    ClearOf-Becomes :
        (r : DbRule) (rules : List DbRule)
        → ClearOf r rules
        → Becomes rules
        → clash r new ≡ false
        → ClearOf r (update_rows f id rules).0
    ClearOf-Becomes r [] c b e = tt
    ClearOf-Becomes r (o ∷ rules) (a, c) (x, b) e =
        let rest = ClearOf-Becomes r rules c b e in
        elim (Bool-cases (o.id == id && not o.deleted)) [
          | inl t ↦ rw (t, if◌then◌else◌) (ap (clash r) (x t) ∙ e, rest)
          | inr t ↦ rw (t, if◌then◌else◌) (a, rest)
        ]

    pub NoClash-Becomes :
        (n : ℕ) (rules : List DbRule)
        → Fresh n rules
        → NoClash rules
        → Becomes rules
        → Checked rules
        → NoClash (update_rows f id rules).0
    NoClash-Becomes n [] h k b c = tt
    NoClash-Becomes n (r ∷ rules) (low, other, h) (clear, k) (x, b) (y, c) =
        elim (Bool-cases (r.id == id && not r.deleted)) [
          | inl t ↦
              let same : r.id ≡ id = (==_iff r.id id).0 (ground (arith, t)) in
              let absent : All (λ o. (o.id == id) ≡ false) rules =
                subst (λ i. All (λ o. (o.id == i) ≡ false) rules) same other in
              rw (t, if◌then◌else◌, update_rows-absent rules absent)
                (subst (λ s. ClearOf s rules) (sym (x t)) (Checked-All rules c absent), k)
          | inr t ↦
              rw (t, if◌then◌else◌)
                (ClearOf-Becomes r rules clear b (apart t), NoClash-Becomes n rules h k b c)
        ]
      where
        apart : (r.id == id && not r.deleted) ≡ false → clash r new ≡ false
        apart t = elim (Bool-cases (r.id == id)) [
          | inl i ↦ ground (arith, t, i)
          | inr i ↦ clash_sym r new ∙ y i
        ]

  module _ (keeps : (r : DbRule) → (f r).id ≡ r.id) where
    ids-update_rows :
        (j : ℕ) (rules : List DbRule)
        → All (λ o. (o.id == j) ≡ false) rules
        → All (λ o. (o.id == j) ≡ false) (update_rows f id rules).0
    ids-update_rows j [] a = tt
    ids-update_rows j (o ∷ rules) (a, b) = elim (Bool-cases (o.id == id && not o.deleted)) [
      | inl t ↦ rw (t, if◌then◌else◌) (ap (λ i. i == j) (keeps o) ∙ a, ids-update_rows j rules b)
      | inr t ↦ rw (t, if◌then◌else◌) (a, ids-update_rows j rules b)
    ]

    pub Fresh-update_rows :
        (n : ℕ) (rules : List DbRule) → Fresh n rules → Fresh n (update_rows f id rules).0
    Fresh-update_rows n [] h = tt
    Fresh-update_rows n (r ∷ rules) (low, other, h) =
        elim (Bool-cases (r.id == id && not r.deleted)) [
          | inl t ↦
              rw (t, if◌then◌else◌)
                (
                  subst (λ i. i < n) (sym (keeps r)) low,
                  subst (λ i. All (λ o. (o.id == i) ≡ false) (update_rows f id rules).0)
                      (sym (keeps r)) (ids-update_rows r.id rules other),
                  Fresh-update_rows n rules h,
                )
          | inr t ↦
              rw (t, if◌then◌else◌)
                (low, ids-update_rows r.id rules other, Fresh-update_rows n rules h)
        ]
