-- ===== src/Panel/Sweeper.antt =====
-- crates/panel-server/src/sweeper/user_quota.rs: the start of the period that counts, the bytes in it, and the
-- rules of the users who are past their date or their limit. The clock and the database's sum of real
-- numbers are arguments; the notices are left out.
pub mod Period
pub mod Disable
pub mod Ticks
mod Tests
use emorelay.Base.{
  ℕ, zero, suc, ◌+◌, ◌-◌, ◌*◌, ◌/◌, ◌%◌, min, max, Bool, true, false, not, ◌&&◌, ◌||◌, Option, none,
  some, List, [], ◌∷◌, ◌++◌, ◌==◌, leb, ltb, String, if◌then◌else◌, length, contains, is_some, any,
  retain,
}
use emorelay.Base.Signed.{ℤ, pos, negsuc, pos_part}
use emorelay.Proto.{TargetEndpoint}
use emorelay.Panel.Db.{Db, DbRule, Tunnel, first, find_tunnel}
use emorelay.Panel.Dispatch.{dispatch_rule_apply}
use emorelay.Panel.Dispatcher.{CommandDispatcher}
use emorelay.Panel.Rules.{Formats, Site, User, AuditEntry, find_by_id}

-- A day of the proleptic Gregorian calendar at midnight. The years are those from 0 on.
pub record Date : Type 0 where
  pub year : ℕ
  pub month : ℕ
  pub day : ℕ

abbrev pub is_leap : ℕ → Bool
is_leap y = y % 4 == 0 && (not (y % 100 == 0) || y % 400 == 0)

-- The days of a month: the last day before the first of the next.
unfoldable pub days_in_month : ℕ → ℕ → ℕ
days_in_month y m =
    if m == 2
    then (if is_leap y then 29 else 28)
    else (if m == 4 || (m == 6 || (m == 9 || m == 11)) then 30 else 31)

unfoldable pub clamp_day_start : ℕ → ℕ → ℕ → Date
clamp_day_start y m d = record { year = y; month = m; day = min d (days_in_month y m) }

-- Whether midnight of the first is not after midnight of the second.
abbrev pub le_date : Date → Date → Bool
le_date a b =
    ltb a.year b.year
    || (a.year == b.year && (ltb a.month b.month || (a.month == b.month && leb a.day b.day)))

abbrev pub prev_month : ℕ → ℕ → ℕ × ℕ
prev_month y m = if m == 1 then (y - 1, 12) else (y, m - 1)

-- `day.clamp(1, 31)`
abbrev pub clamp_day : ℤ → ℕ
clamp_day day = min (max 1 (pos_part day)) 31

-- The day of `now` decides: a midnight is not after now if it is not after now's day.
unfoldable pub monthly_period_start : Date → ℤ → Date
monthly_period_start now day =
    let d = clamp_day day in
    let candidate = clamp_day_start now.year now.month d in
    let prev = prev_month now.year now.month in
    if le_date candidate now then candidate else clamp_day_start prev.0 prev.1 d

-- `disable_rules_for_user`: the rules that are on now are switched off by one update, and each is sent.
abbrev pub is_on : DbRule → Bool
is_on r = r.enabled && not r.deleted

unfoldable pub enabled_ids : ℕ → List DbRule → List ℕ
enabled_ids user_id [] = []
enabled_ids user_id (r ∷ rules) =
    let rest = enabled_ids user_id rules in
    if r.user_id == user_id && is_on r then r.id ∷ rest else rest

unfoldable pub stop_ids : List ℕ → List DbRule → List DbRule × ℕ
stop_ids ids [] = ([], 0)
stop_ids ids (r ∷ rules) =
    let rest = stop_ids ids rules in
    if contains ids r.id && is_on r
    then (record r { enabled = false } ∷ rest.0, suc rest.1)
    else (r ∷ rest.0, rest.1)

unfoldable pub send_all : Formats → Site → List ℕ → CommandDispatcher → CommandDispatcher
send_all formats s [] d = d
send_all formats s (id ∷ ids) d = elim (find_by_id s id) [
  | none ↦ send_all formats s ids d
  | some rule ↦ send_all formats s ids (dispatch_rule_apply formats.targets_from_str s.db d rule)
]

unfoldable pub disable_rules_for_user : Formats → Site → ℕ → Site × ℕ
disable_rules_for_user formats s user_id =
    let ids = enabled_ids user_id s.db.rules in
    let stopped = stop_ids ids s.db.rules in
    let stored = record s { db = record s.db { rules = stopped.0 } } in
    if length ids == 0
    then (s, 0)
    else (record stored { dispatcher = send_all formats stored ids s.dispatcher }, stopped.1)

-- The loop that both ticks share: a user whose rules were switched off is logged and counted.
unfoldable pub disable_each : Formats → String → Site → List ℕ → Site × ℕ
disable_each formats action s [] = (s, 0)
disable_each formats action s (user_id ∷ users) =
    let (s', disabled) = disable_rules_for_user formats s user_id in
    let entry : AuditEntry = record {
      actor_user_id = none;
      action = action;
      target_id = user_id;
    } in
    let logged = if disabled == 0 then s' else record s' { audit = s'.audit ++ (entry ∷ []) } in
    let (s'', hit) = disable_each formats action logged users in
    (s'', if disabled == 0 then hit else suc hit)

abbrev pub has_on : List DbRule → ℕ → Bool
has_on rules user_id = any (λ r. r.user_id == user_id && is_on r) rules

-- The ids of the live users that pass, and have a rule that is on.
unfoldable pub chosen : (User → Bool) → List DbRule → List User → List ℕ
chosen p rules [] = []
chosen p rules (u ∷ users) =
    let rest = chosen p rules users in
    if p u && (not u.deleted && has_on rules u.id) then u.id ∷ rest else rest

abbrev pub is_expired : ℕ → User → Bool
is_expired now u = elim u.expires_at [ none ↦ false | some t ↦ leb t now ]

unfoldable pub expiry_tick_once : Formats → Site → ℕ → Site × ℕ
expiry_tick_once formats s now =
    disable_each formats "user.expired_auto_disable_rules" s
      (chosen (is_expired now) s.db.rules s.users)

-- A row of `rule_stats`.
pub record RuleStat : Type 0 where
  pub rule_id : ℕ
  pub bucket_at : ℕ
  pub rx_bytes : ℕ
  pub tx_bytes : ℕ

-- The factors of one product in BILLED_BYTES_SUM: the bytes, of which a live tunnel may count the
-- larger direction only, and the ratio in millionths.
unfoldable pub billed : Option Tunnel → RuleStat → ℕ × ℕ
billed none st = (st.rx_bytes + st.tx_bytes, 1000000)
billed (some t) st = (
  if t.billing_mode == 1
      then (if ltb st.tx_bytes st.rx_bytes then st.rx_bytes else st.tx_bytes)
      else st.rx_bytes + st.tx_bytes,
  t.traffic_ratio,
)

abbrev pub tunnel_of : Db → DbRule → Option Tunnel
tunnel_of db r = elim r.tunnel_id [ none ↦ none | some tid ↦ find_tunnel db tid ]

-- The join of one row of statistics with the rules of the user; a deleted rule counts.
abbrev pub billed_to : Db → ℕ → RuleStat → List DbRule → List (ℕ × ℕ)
billed_to db user_id st [] = []
billed_to db user_id st (r ∷ rules) =
    let rest = billed_to db user_id st rules in
    if r.id == st.rule_id && r.user_id == user_id then billed (tunnel_of db r) st ∷ rest else rest

abbrev pub billed_rows : Db → ℕ → ℕ → List RuleStat → List (ℕ × ℕ)
billed_rows db user_id cutoff [] = []
billed_rows db user_id cutoff (st ∷ stats) =
    let rest = billed_rows db user_id cutoff stats in
    if leb cutoff st.bucket_at then billed_to db user_id st db.rules ++ rest else rest

-- What the tick gets from outside: the instant, its day, when a day begins; and how the database adds
-- up products of bytes and a ratio as REAL numbers and casts the sum to an integer: SQLite truncates
-- the sum, PostgreSQL rounds it.
pub record Clock : Type 0 where
  pub now : ℕ
  pub today : Date
  pub midnight : Date → ℕ
  pub cast_sum : List (ℕ × ℕ) → ℕ

-- No rows have no sum, and COALESCE gives zero.
abbrev coalesced : (List (ℕ × ℕ) → ℕ) → List (ℕ × ℕ) → ℕ
coalesced cast_sum [] = 0
coalesced cast_sum (row ∷ rows) = cast_sum (row ∷ rows)

unfoldable pub period_used : Clock → Db → List RuleStat → ℕ → ℕ → ℕ
period_used clock db stats user_id cutoff =
    coalesced clock.cast_sum (billed_rows db user_id cutoff stats)

-- Thirty days back, or the start of the user's month.
abbrev pub cutoff_of : Clock → User → ℕ
cutoff_of clock u = elim u.quota_reset_day [
  | none ↦ clock.now - 2592000
  | some day ↦ clock.midnight (monthly_period_start clock.today day)
]

abbrev pub refresh : Clock → Db → List RuleStat → List User → List User
refresh clock db stats [] = []
refresh clock db stats (u ∷ users) =
    let rest = refresh clock db stats users in
    let used = period_used clock db stats u.id (cutoff_of clock u) in
    (if u.deleted then u else record u { period_used_bytes_cached = used }) ∷ rest

-- used > limit
abbrev pub exceeds : ℕ → ℤ → Bool
exceeds used (pos limit) = ltb limit used
exceeds used (negsuc n) = true

abbrev pub is_over_quota : User → Bool
is_over_quota u = elim u.traffic_limit_bytes_30d [
  | none ↦ false
  | some limit ↦ exceeds u.period_used_bytes_cached limit
]

unfoldable pub quota_tick_once : Formats → Site → Clock → List RuleStat → Site × ℕ
quota_tick_once formats s clock stats =
    let refreshed = record s { users = refresh clock s.db stats s.users } in
    disable_each formats "user.quota_exceeded_auto_disable_rules" refreshed
      (chosen is_over_quota s.db.rules refreshed.users)
