-- ===== src/Panel/Sweeper/Tests.antt =====
-- The sweeper at concrete data: the dates of its own tests, and the ticks on the sample site.
use emorelay.Base.{◌+◌, ◌*◌, ◌/◌, ℕ, ◌≡◌, refl, some, List, [], ◌∷◌, arith}
use emorelay.Base.Signed.{pos}
use emorelay.Panel.Rules.{Site}
use emorelay.Panel.Rules.Sample.{formats, site, owner, db-IsTable}
use emorelay.Panel.Sweeper.{
  Date, Clock, RuleStat, days_in_month, clamp_day_start, monthly_period_start, expiry_tick_once,
  quota_tick_once, disable_each, disable_rules_for_user, chosen, enabled_ids, stop_ids, period_used,
  billed,
}
use emorelay.Panel.Sweeper.Period.{IsDate, IsLatest, monthly_period_start-IsLatest}
use emorelay.Panel.Sweeper.Disable.{switch_off}
use emorelay.Panel.Sweeper.Ticks.{owner_is, is_over, quota_tick_once-switch_off}

abbrev date : ℕ → ℕ → ℕ → Date
date y m d = record { year = y; month = m; day = d }

passed_day : monthly_period_start (date 2026 6 20) (pos 15) ≡ date 2026 6 15
unfolding monthly_period_start clamp_day_start days_in_month
passed_day = refl

day_not_reached : monthly_period_start (date 2026 6 5) (pos 15) ≡ date 2026 5 15
unfolding monthly_period_start clamp_day_start days_in_month
day_not_reached = refl

short_month : monthly_period_start (date 2026 4 29) (pos 31) ≡ date 2026 3 31
unfolding monthly_period_start clamp_day_start days_in_month
short_month = refl

leap_day : monthly_period_start (date 2024 3 1) (pos 30) ≡ date 2024 2 29
unfolding monthly_period_start clamp_day_start days_in_month
leap_day = refl

march_1-IsDate : IsDate (date 2024 3 1)
unfolding days_in_month
march_1-IsDate = record {
  month_low = omega arith;
  month_high = omega arith;
  day_low = omega arith;
  day_high = omega arith;
}

monthly_period_start-IsLatest_example :
    IsLatest (pos 30) (date 2024 3 1) (monthly_period_start (date 2024 3 1) (pos 30))
monthly_period_start-IsLatest_example =
    monthly_period_start-IsLatest (date 2024 3 1) (pos 30) march_1-IsDate (omega arith)

-- The reset day of a month of 30 days is the 30th, from its midnight on.
last_day : monthly_period_start (date 2026 4 30) (pos 31) ≡ date 2026 4 30
unfolding monthly_period_start clamp_day_start days_in_month
last_day = refl

year_before : monthly_period_start (date 2026 1 5) (pos 15) ≡ date 2025 12 15
unfolding monthly_period_start clamp_day_start days_in_month
year_before = refl

-- The owner's date is 100.
abbrev lapsed : Site
lapsed = record site { users = record owner { expires_at = some 100 } ∷ [] }

not_yet : (expiry_tick_once formats lapsed 99).1 ≡ 0
unfolding expiry_tick_once disable_each disable_rules_for_user chosen enabled_ids stop_ids
not_yet = refl

-- Rule 7 is on, and so is the tunnel's.
both_stopped : enabled_ids 2 site.db.rules ≡ 7 ∷ 9 ∷ []
unfolding enabled_ids
both_stopped = refl

-- The sum with no rounding before the cast, which truncates.
abbrev total : List (ℕ × ℕ) → ℕ
total [] = 0
total ((bytes, ratio) ∷ rows) = bytes * ratio + total rows

abbrev clock : Clock
clock = record {
  now = 5000;
  today = date 2024 3 1;
  midnight = λ d. d.day * 100;
  cast_sum = λ rows. total rows / 1000000;
}

-- Two buckets of rule 7, of which one is from before the period.
abbrev stats : List RuleStat
stats =
    record { rule_id = 7; bucket_at = 3000; rx_bytes = 600; tx_bytes = 700 }
    ∷ record { rule_id = 7; bucket_at = 2000; rx_bytes = 5000; tx_bytes = 0 }
    ∷ []

used : period_used clock site.db stats 2 2900 ≡ 1300
unfolding period_used billed
used = refl

quota_tick_once-switch_off_example :
    (quota_tick_once formats site clock stats).0.db.rules
    ≡ switch_off (owner_is (is_over clock site.db stats) site.users) site.db.rules
quota_tick_once-switch_off_example = quota_tick_once-switch_off formats site clock stats db-IsTable
