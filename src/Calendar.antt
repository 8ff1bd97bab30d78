-- ===== src/Calendar.antt =====
-- Python's datetime and calendar, as far as app/services/deadlines.py, retention.py and report.py
-- use them: instants in UTC, comparison, whole days, and the calendar of the proleptic year.
pub mod Ordinal
use open_whistle.Base.{
  ℕ, zero, suc, ◌+◌, ◌-◌, ◌*◌, ◌/◌, ◌%◌, ◌≤◌, ◌<◌, min, max, String, ◌≡◌, refl, sym, ap, ◌∙◌,
  ◌≡⟨◌⟩◌, ◌∎, ◌≢◌, ◌↔◌, ◌⊎◌, inl, inr, Bool, true, false, not, ◌&&◌, ◌||◌, Option, none, some, List,
  [], ◌∷◌, ◌++◌, map, arith, ltb, leb, ◌==◌, if◌then◌else◌, opt_eq, is_some, ltb→lt, lt→ltb, leb→le,
  le→leb, ==→eq, ==-refl, opt_eq→eq, opt_eq_refl, Bool-cases, Option-cases, length, take, drop,
  keep, find, any, all, length-append, length-keep-le, find_sound, All, All-append, All-keep,
}
use open_whistle.Base.Int.{
  ℤ, pos, negsuc, pos_part, neg_part, sub_ℕ, ◌+ℤ◌, ◌≤ℤ◌, ltb_ℤ, leb_ℤ, floor_div, floor_mod,
}
use open_whistle.Base.Outcome.{
  Outcome, ok, http, raised, ◌>>=◌, ◌>>◌, demand, present, >>=-eq-ok, demand-eq-ok, present-eq-ok,
}

-- A datetime in UTC; `micros` are the microseconds since its midnight.
pub record Datetime : Type 0 where
  pub year : ℕ
  pub month : ℕ
  pub day : ℕ
  pub micros : ℕ

abbrev pub day_micros : ℕ
day_micros = 86400000000

abbrev pub max_year : ℕ
max_year = 9999

unfoldable pub is_leap : ℕ → Bool
is_leap y = (y % 4 == 0) && (not (y % 100 == 0) || (y % 400 == 0))

-- calendar.monthrange(year, month)[1]
unfoldable pub days_in_month : ℕ → ℕ → ℕ
unfolding is_leap
days_in_month year month =
    if month == 2
    then (if is_leap year then 29 else 28)
    else if (month == 4) || (month == 6) || (month == 9) || (month == 11)
    then 30
    else 31

unfoldable pub days_before_year : ℕ → ℕ
days_before_year y = 365 * (y - 1) + (y - 1) / 4 + (y - 1) / 400 - (y - 1) / 100

-- The days of the first `n` months.
unfoldable pub days_before_month : ℕ → ℕ → ℕ
days_before_month y zero = 0
days_before_month y (suc n) = days_before_month y n + days_in_month y (suc n)

-- datetime.toordinal()
unfoldable pub ordinal : Datetime → ℕ
ordinal t = days_before_year t.year + days_before_month t.year (t.month - 1) + t.day

-- The instant in microseconds: two aware datetimes are compared and subtracted by it.
unfoldable pub stamp : Datetime → ℕ
stamp t = ordinal t * day_micros + t.micros

abbrev pub ltb_time : Datetime → Datetime → Bool
ltb_time a b = ltb (stamp a) (stamp b)

abbrev pub leb_time : Datetime → Datetime → Bool
leb_time a b = leb (stamp a) (stamp b)

-- min(a, b), which keeps its first argument when neither is less
unfoldable pub min_time : Datetime → Datetime → Datetime
min_time a b = if ltb_time b a then b else a

-- (a - b).days, floored
unfoldable pub days_between : Datetime → Datetime → ℤ
days_between a b = floor_div (sub_ℕ (stamp a) (stamp b)) day_micros

unfoldable pub next_day : Datetime → Datetime
next_day t =
    if ltb t.day (days_in_month t.year t.month)
    then record t { day = t.day + 1 }
    else if ltb t.month 12
    then record t { month = t.month + 1; day = 1 }
    else record t { year = t.year + 1; month = 1; day = 1 }

unfoldable pub prev_day : Datetime → Datetime
prev_day t =
    if ltb 1 t.day
    then record t { day = t.day - 1 }
    else if ltb 1 t.month
    then record t { month = t.month - 1; day = days_in_month t.year (t.month - 1) }
    else record t { year = t.year - 1; month = 12; day = 31 }

unfoldable pub advance : ℕ → Datetime → Datetime
advance zero t = t
advance (suc n) t = advance n (next_day t)

unfoldable pub retreat : ℕ → Datetime → Datetime
retreat zero t = t
retreat (suc n) t = retreat n (prev_day t)

-- A datetime outside of the years 1 to 9999 raises OverflowError. Once out of range, `advance`
-- and `retreat` stay out of it.
unfoldable pub checked : Datetime → Outcome Datetime
checked t = if leb 1 t.year && leb t.year max_year then ok t else raised

-- t + timedelta(days=n), t - timedelta(days=n)
unfoldable pub add_days : Datetime → ℕ → Outcome Datetime
unfolding checked
add_days t n = checked (advance n t)

unfoldable pub sub_days : Datetime → ℕ → Outcome Datetime
unfolding checked
sub_days t n = checked (retreat n t)

-- t + timedelta(microseconds=1)
unfoldable pub add_micro : Datetime → Outcome Datetime
unfolding checked
add_micro t =
    if ltb (t.micros + 1) day_micros
    then ok (record t { micros = t.micros + 1 })
    else checked (record (next_day t) { micros = 0 })

pub record IsValid (t : Datetime) : Type 0 where
  pub year_pos : 1 ≤ t.year
  pub month_pos : 1 ≤ t.month
  pub month_le : t.month ≤ 12
  pub day_pos : 1 ≤ t.day
  pub day_le : t.day ≤ days_in_month t.year t.month
  pub micros_lt : t.micros < day_micros
