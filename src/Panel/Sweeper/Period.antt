-- ===== src/Panel/Sweeper/Period.antt =====
-- crates/panel-server/src/sweeper/user_quota.rs: the period that counts.
use emorelay.Base.{
  ℕ, suc, ◌-◌, ◌≤◌, min, ◌≡◌, refl, sym, ap, ap₂, ◌∙◌, true, false, ◌==◌, ==_iff, if◌then◌else◌,
  arith, Bool-cases, inl, inr,
}
use emorelay.Base.Signed.{ℤ}
use emorelay.Panel.Sweeper.{
  Date, days_in_month, clamp_day_start, le_date, clamp_day, monthly_period_start,
}

-- A day that the calendar has.
pub record IsDate (a : Date) : Type 0 where
  pub month_low : 1 ≤ a.month
  pub month_high : a.month ≤ 12
  pub day_low : 1 ≤ a.day
  pub day_high : a.day ≤ days_in_month a.year a.month

days_in_month_bounds : (y m : ℕ) → (28 ≤ days_in_month y m) × (days_in_month y m ≤ 31)
unfolding days_in_month
days_in_month_bounds y m = ground arith

clamp_day_bounds : (d : ℤ) → (1 ≤ clamp_day d) × (clamp_day d ≤ 31)
clamp_day_bounds d = omega arith

-- The reset day of a month: the day that is asked for, or the last of a shorter month.
abbrev pub IsReset : ℤ → Date → Type 0
IsReset day a = a.day ≡ min (clamp_day day) (days_in_month a.year a.month)

-- The reset day of the month after that of a day.
abbrev pub next_reset : ℤ → Date → Date
next_reset day a =
    if a.month == 12
    then clamp_day_start (suc a.year) 1 (clamp_day day)
    else clamp_day_start a.year (suc a.month) (clamp_day day)

-- The latest reset that is not after now.
pub record IsLatest (day : ℤ) (now start : Date) : Type 0 where
  pub is_date : IsDate start
  pub is_reset : IsReset day start
  pub started : le_date start now ≡ true
  pub next_later : le_date (next_reset day start) now ≡ false

clamped-IsDate : (y m : ℕ) (day : ℤ) → 1 ≤ m → m ≤ 12 → IsDate (clamp_day_start y m (clamp_day day))
unfolding clamp_day_start
clamped-IsDate y m day a b =
    let days = days_in_month_bounds y m in
    let d = clamp_day_bounds day in
    record {
      month_low = a;
      month_high = b;
      day_low = omega (arith, days, d);
      day_high = omega arith;
    }

this_month-IsLatest :
    (now : Date) (day : ℤ)
    → IsDate now
    → le_date (clamp_day_start now.year now.month (clamp_day day)) now ≡ true
    → IsLatest day now (clamp_day_start now.year now.month (clamp_day day))
unfolding clamp_day_start
this_month-IsLatest now day i e = record {
  is_date = clamped-IsDate now.year now.month day i.month_low i.month_high;
  is_reset = refl;
  started = e;
  next_later = elim (Bool-cases (now.month == 12)) [
    | inl f ↦ rw (f, if◌then◌else◌) (ground arith)
    | inr f ↦ rw (f, if◌then◌else◌) (ground arith)
  ];
}

last_year-IsLatest :
    (now : Date) (day : ℤ)
    → 1 ≤ now.year
    → now.month ≡ 1
    → le_date (clamp_day_start now.year now.month (clamp_day day)) now ≡ false
    → IsLatest day now (clamp_day_start (now.year - 1) 12 (clamp_day day))
unfolding clamp_day_start
last_year-IsLatest now day y m e =
    let up : suc (now.year - 1) ≡ now.year = omega (arith, y) in
    record {
      is_date = clamped-IsDate (now.year - 1) 12 day (omega arith) (omega arith);
      is_reset = refl;
      started = ground (arith, y);
      next_later = ap₂ (λ a b. le_date (clamp_day_start a b (clamp_day day)) now) up (sym m) ∙ e;
    }

last_month-IsLatest :
    (now : Date) (day : ℤ)
    → IsDate now
    → (now.month == 1) ≡ false
    → le_date (clamp_day_start now.year now.month (clamp_day day)) now ≡ false
    → IsLatest day now (clamp_day_start now.year (now.month - 1) (clamp_day day))
unfolding clamp_day_start
last_month-IsLatest now day i m e =
    let up : suc (now.month - 1) ≡ now.month = ground (arith, m, i.month_low) in
    let early : ((now.month - 1) == 12) ≡ false = ground (arith, i.month_high, m, i.month_low) in
    record {
      is_date =
          clamped-IsDate now.year (now.month - 1) day (ground (arith, m, i.month_low))
            (omega (arith, i.month_high));
      is_reset = refl;
      started = ground (arith, up);
      next_later =
          ap
            (λ b.
              le_date
                (if b
                  then clamp_day_start (suc now.year) 1 (clamp_day day)
                  else clamp_day_start now.year (suc (now.month - 1)) (clamp_day day))
                now)
            early
          ∙ ap (λ a. le_date (clamp_day_start now.year a (clamp_day day)) now) up
          ∙ e;
    }

-- For a day of the calendar from the year 1 on, and any reset day, also 0, a negative one or one past the
-- end of a month: the period starts on a day of the calendar, which is the reset day of its month, and is
-- not after now, while the reset day of the month after it is.
pub monthly_period_start-IsLatest :
    (now : Date) (day : ℤ)
    → IsDate now
    → 1 ≤ now.year
    → IsLatest day now (monthly_period_start now day)
unfolding monthly_period_start
monthly_period_start-IsLatest now day i y =
    elim (Bool-cases (le_date (clamp_day_start now.year now.month (clamp_day day)) now)) [
      | inl e ↦ rw (e, if◌then◌else◌) (this_month-IsLatest now day i e)
      | inr e ↦ elim (Bool-cases (now.month == 1)) [
        | inl m ↦
            rw (e, m, if◌then◌else◌) (last_year-IsLatest now day y ((==_iff now.month 1).0 m) e)
        | inr m ↦ rw (e, m, if◌then◌else◌) (last_month-IsLatest now day i m e)
      ]
    ]
