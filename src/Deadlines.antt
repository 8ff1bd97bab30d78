-- ===== src/Deadlines.antt =====
-- app/services/deadlines.py: the two deadlines of §17 HinSchG.
-- Every datetime is aware and in UTC, as the columns are read, so `_aware` is the identity.
pub mod Months
pub mod Acknowledgement
pub mod Feedback
use open_whistle.Base.{
  ℕ, zero, suc, ◌+◌, ◌-◌, ◌*◌, ◌/◌, ◌%◌, ◌≤◌, ◌<◌, min, max, String, ◌≡◌, refl, sym, ap, ◌∙◌,
  ◌≡⟨◌⟩◌, ◌∎, ◌≢◌, ◌↔◌, ◌⊎◌, inl, inr, Bool, true, false, not, ◌&&◌, ◌||◌, Option, none, some, List,
  [], ◌∷◌, ◌++◌, map, arith, ltb, leb, ◌==◌, if◌then◌else◌, opt_eq, is_some, ltb→lt, lt→ltb, leb→le,
  le→leb, ==→eq, ==-refl, opt_eq→eq, opt_eq_refl, Bool-cases, Option-cases, length, take, drop,
  keep, find, any, all, length-append, length-keep-le, find_sound, All, All-append, All-keep,
}
use open_whistle.Base.Int.{
  ℤ, pos, negsuc, pos_part, neg_part, sub_ℕ, ◌+ℤ◌, ◌≤ℤ◌, ltb_ℤ, leb_ℤ, floor_div, floor_mod,
}
use open_whistle.Base.Outcome.{
  Outcome, ok, http, raised, ◌>>=◌, ◌>>◌, demand, present, >>=-eq-ok, demand-eq-ok, present-eq-ok,
}
use open_whistle.Calendar.{
  Datetime, day_micros, max_year, days_in_month, ordinal, stamp, ltb_time, leb_time, min_time,
  days_between, add_days, advance, checked, IsValid,
}

abbrev pub ack_days : ℕ
ack_days = 7

abbrev pub feedback_months : ℕ
feedback_months = 3

abbrev pub ack_warn_from_day : ℕ
ack_warn_from_day = 5

abbrev pub feedback_warn_days : ℕ
feedback_warn_days = 14

pub data State : Type 0 where
  done ok_state warning overdue : State

-- `t.replace(year=…, month=…, day=…)`: ValueError for what is no date.
unfoldable pub replace : Datetime → ℤ → ℕ → ℕ → Outcome Datetime
replace t year month day =
    if leb_ℤ (pos 1) year
      && leb_ℤ year (pos max_year)
      && leb 1 month
      && leb month 12
      && leb 1 day
      && leb day (days_in_month (pos_part year) month)
    then ok (record t { year = pos_part year; month = month; day = day })
    else raised

-- `calendar.monthrange` knows every year.
unfoldable pub add_months : Datetime → ℤ → Outcome Datetime
unfolding floor_div floor_mod replace
add_months t months =
    let month_index = pos (t.month - 1) +ℤ months in
    let year = pos t.year +ℤ floor_div month_index 12 in
    let month = floor_mod month_index 12 + 1 in
    let day = min t.day (days_in_month (pos_part year) month) in replace t year month day

unfoldable pub end_of_day : Datetime → Datetime
end_of_day t = record t { micros = day_micros - 1 }

unfoldable pub ack_due : Datetime → Outcome Datetime
unfolding end_of_day add_days
ack_due submitted_at = do due ← add_days submitted_at ack_days; ok (end_of_day due)

unfoldable pub without_ack : Datetime → Outcome Datetime
unfolding add_months add_days end_of_day
without_ack receipt = do
  months ← add_months receipt (pos feedback_months)
  due ← add_days months ack_days
  ok (end_of_day due)

unfoldable pub feedback_due : Datetime → Option Datetime → Outcome Datetime
unfolding without_ack add_months end_of_day min_time
feedback_due submitted_at acknowledged_at = do
  latest ← without_ack submitted_at
  elim acknowledged_at [
    | none ↦ ok latest
    | some ack ↦ do
      months ← add_months ack (pos feedback_months)
      ok (min_time (end_of_day months) latest)
  ]

unfoldable pub ack_on_time : Datetime → Option Datetime → Outcome Bool
unfolding ack_due
ack_on_time submitted_at none = ok false
ack_on_time submitted_at (some ack) = do due ← ack_due submitted_at; ok (leb_time ack due)

pub record Deadline : Type 0 where
  pub state : State
  pub due : Datetime
  pub days : ℤ

unfoldable pub ack_status : Datetime → Option Datetime → Datetime → Outcome Deadline
unfolding ack_due days_between
ack_status submitted_at acknowledged_at now = ack_due submitted_at >>= λ due.
    let day = days_between now submitted_at in
    if is_some acknowledged_at
    then ok (record { state = done; due = due; days = day })
    else if ltb_time due now
    then ok (record { state = overdue; due = due; days = day })
    else if leb_ℤ (pos ack_warn_from_day) day
    then ok (record { state = warning; due = due; days = day })
    else ok (record { state = ok_state; due = due; days = day })

unfoldable pub feedback_status : Option Datetime → Option Datetime → Datetime → Option Deadline
unfolding days_between
feedback_status none feedback_sent_at now = none
feedback_status (some due) feedback_sent_at now =
    let left = days_between due now in
    if is_some feedback_sent_at
    then some (record { state = done; due = due; days = left })
    else if ltb_time due now
    then some (record { state = overdue; due = due; days = left })
    else if leb_ℤ left (pos feedback_warn_days)
    then some (record { state = warning; due = due; days = left })
    else some (record { state = ok_state; due = due; days = left })
