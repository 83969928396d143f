-- ===== src/Panel/Sweeper/Ticks.antt =====
-- crates/panel-server/src/sweeper/user_quota.rs: what each tick leaves of the rules.
use emorelay.Base.{
  ℕ, ◌≡◌, refl, ap, ◌∙◌, Bool, true, false, not, ◌&&◌, ◌||◌, ◌==◌, ==_iff, List, [], ◌∷◌,
  if◌then◌else◌, arith, Bool-cases, inl, inr, any, contains, All, All-intro, none, some,
}
use emorelay.Panel.Db.{Db, DbRule}
use emorelay.Panel.Ports.Table.{IsTable}
use emorelay.Panel.Rules.{Formats, Site, User}
use emorelay.Panel.Sweeper.{
  is_on, has_on, chosen, is_expired, expiry_tick_once, quota_tick_once, RuleStat, Clock,
  period_used, cutoff_of, refresh, exceeds, is_over_quota,
}
use emorelay.Panel.Sweeper.Disable.{switch_off, switch_off-Agree, Agree, disable_each-rules}

-- A live user of this id passes.
abbrev pub owner_is : (User → Bool) → List User → ℕ → Bool
owner_is p users v = any (λ u. u.id == v && (not u.deleted && p u)) users

chosen-owner_is :
    (p : User → Bool) (rules : List DbRule) (v : ℕ) (users : List User)
    → has_on rules v ≡ true
    → contains (chosen p rules users) v ≡ owner_is p users v
unfolding chosen
chosen-owner_is p rules v [] h = refl
chosen-owner_is p rules v (u ∷ users) h =
    let rest = chosen-owner_is p rules v users h in
    elim (Bool-cases (u.id == v)) [
      | inl e ↦
          let on : has_on rules u.id ≡ true = ap (has_on rules) ((==_iff u.id v).0 e) ∙ h in
          elim (Bool-cases (p u && not u.deleted)) [
            | inl t ↦
                let all : (p u && (not u.deleted && has_on rules u.id)) ≡ true =
                  ground (arith, t, on) in
                rw (all, if◌then◌else◌) (ground (arith, e, t))
            | inr t ↦
                let all : (p u && (not u.deleted && has_on rules u.id)) ≡ false =
                  ground (arith, t) in
                rw (all, if◌then◌else◌) (ground (arith, t, rest))
          ]
      | inr e ↦ elim (Bool-cases (p u && (not u.deleted && has_on rules u.id))) [
        | inl t ↦ rw (t, if◌then◌else◌) (ground (arith, e, rest))
        | inr t ↦ rw (t, if◌then◌else◌) (ground (arith, e, rest))
      ]
    ]

has_on-cons :
    (o : DbRule) (all rules : List DbRule)
    → All (λ r. is_on r ≡ true → has_on all r.user_id ≡ true) rules
    → All (λ r. is_on r ≡ true → has_on (o ∷ all) r.user_id ≡ true) rules
has_on-cons o all [] a = tt
has_on-cons o all (r ∷ rules) (x, a) = ((λ e. ground (arith, x e)), has_on-cons o all rules a)

-- The owner of a rule that is on has one.
has_on_self :
    (rules : List DbRule) → All (λ r. is_on r ≡ true → has_on rules r.user_id ≡ true) rules
has_on_self [] = tt
has_on_self (r ∷ rules) = (
  (λ e. ground (arith, e, (==_iff r.user_id r.user_id).1 refl)),
  has_on-cons r rules rules (has_on_self rules),
)

chosen-Agree :
    (p : User → Bool) (users : List User) (all rules : List DbRule)
    → All (λ r. is_on r ≡ true → has_on all r.user_id ≡ true) rules
    → Agree (λ r. contains (chosen p all users) r.user_id) (λ r. owner_is p users r.user_id) rules
chosen-Agree p users all [] a = tt
chosen-Agree p users all (r ∷ rules) (x, a) =
    ((λ e. chosen-owner_is p all r.user_id users (x e)), chosen-Agree p users all rules a)

switch_off-chosen :
    (p : User → Bool) (users : List User) (rules : List DbRule)
    → switch_off (contains (chosen p rules users)) rules ≡ switch_off (owner_is p users) rules
switch_off-chosen p users rules =
    switch_off-Agree (contains (chosen p rules users)) (owner_is p users) rules
      (chosen-Agree p users rules rules (has_on_self rules))

-- For a table whose ids are unique, the tick of the expiry, which takes the users who have a rule that is on
-- one by one, leaves the rules of one update: off are the rules that were on of the live users whose date
-- is not after now, and nothing else differs.
pub expiry_tick_once-switch_off :
    (formats : Formats) (s : Site) (now : ℕ)
    → IsTable s.db
    → (expiry_tick_once formats s now).0.db.rules
      ≡ switch_off (owner_is (is_expired now) s.users) s.db.rules
unfolding expiry_tick_once
expiry_tick_once-switch_off formats s now t =
    disable_each-rules formats "user.expired_auto_disable_rules" s
      (chosen (is_expired now) s.db.rules s.users) s.db.next_rule_id t.fresh
    ∙ switch_off-chosen (is_expired now) s.users s.db.rules

-- The bytes that count in a user's period, as of this tick, are above the user's limit.
abbrev pub is_over : Clock → Db → List RuleStat → User → Bool
is_over clock db stats u = elim u.traffic_limit_bytes_30d [
  | none ↦ false
  | some limit ↦ exceeds (period_used clock db stats u.id (cutoff_of clock u)) limit
]

refresh-owner_is :
    (clock : Clock) (db : Db) (stats : List RuleStat) (users : List User) (v : ℕ)
    → owner_is is_over_quota (refresh clock db stats users) v
      ≡ owner_is (is_over clock db stats) users v
refresh-owner_is clock db stats [] v = refl
refresh-owner_is clock db stats (u ∷ users) v =
    let rest = refresh-owner_is clock db stats users v in
    elim (Bool-cases u.deleted) [
      | inl e ↦ rw (e, if◌then◌else◌) (ground (arith, rest))
      | inr e ↦
          rw (e, if◌then◌else◌)
            (ap (λ b. (u.id == v && (true && is_over clock db stats u)) || b) rest)
    ]

-- For a table whose ids are unique, the tick of the quota leaves the rules of one update: off are the
-- rules that were on of the live users whose bytes as of this tick, not those of the last, are above their
-- limit, and nothing else differs.
pub quota_tick_once-switch_off :
    (formats : Formats) (s : Site) (clock : Clock) (stats : List RuleStat)
    → IsTable s.db
    → (quota_tick_once formats s clock stats).0.db.rules
      ≡ switch_off (owner_is (is_over clock s.db stats) s.users) s.db.rules
unfolding quota_tick_once
quota_tick_once-switch_off formats s clock stats t =
    let users = refresh clock s.db stats s.users in
    disable_each-rules formats "user.quota_exceeded_auto_disable_rules" (record s { users = users })
      (chosen is_over_quota s.db.rules users) s.db.next_rule_id t.fresh
    ∙ switch_off-chosen is_over_quota users s.db.rules
    ∙ switch_off-Agree (owner_is is_over_quota users) (owner_is (is_over clock s.db stats) s.users)
        s.db.rules
        (All-intro _ (λ r e. refresh-owner_is clock s.db stats s.users r.user_id) s.db.rules)
