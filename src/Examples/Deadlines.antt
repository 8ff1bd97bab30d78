-- ===== src/Examples/Deadlines.antt =====
-- The deadlines of a case of 1 May 2026.
use open_whistle.Base.{ℕ, ◌+◌, ◌*◌, ◌≤◌, ◌<◌, ◌≡◌, refl, ◌↔◌, true, Option, none, some, arith}
use open_whistle.Base.Int.{floor_div, pos, negsuc}
use open_whistle.Base.Outcome.{ok}
use open_whistle.Calendar.{
  advance, next_day, days_before_year, days_before_month, Datetime, day_micros, ordinal, stamp,
  days_in_month,
}
use open_whistle.Deadlines.{
  State, Deadline, ack_days, ack_on_time, ack_status, feedback_due, feedback_status,
}
use open_whistle.Deadlines.Feedback.{
  feedback_due_mono, feedback_due_total, feedback_status-warning_iff,
}
use open_whistle.Deadlines.Acknowledgement.{ack_status-overdue_iff}
use open_whistle.Examples.{morning, evening, morning-IsValid, evening-IsValid}

abbrev last_second : ℕ → ℕ → Datetime
last_second month day = record { year = 2026; month = month; day = day; micros = 86399999999 }

due_plain : feedback_due morning none ≡ ok (last_second 8 8)
unfolding feedback_due advance next_day days_in_month stamp ordinal days_before_year
    days_before_month
due_plain = refl

due_morning : feedback_due morning (some morning) ≡ ok (last_second 8 1)
unfolding feedback_due advance next_day days_in_month stamp ordinal days_before_year
    days_before_month
due_morning = refl

due_evening : feedback_due morning (some evening) ≡ ok (last_second 8 1)
unfolding feedback_due advance next_day days_in_month stamp ordinal days_before_year
    days_before_month
due_evening = refl

same_day : ordinal morning ≤ ordinal evening
unfolding ordinal days_in_month days_before_year days_before_month
same_day = omega arith

feedback_due_mono_example : stamp (last_second 8 1) ≤ stamp (last_second 8 1)
feedback_due_mono_example =
    feedback_due_mono morning morning evening (last_second 8 1) (last_second 8 1) morning-IsValid
      evening-IsValid same_day due_morning due_evening

feedback_due_total_example :
    (w d : Datetime) × (feedback_due morning none ≡ ok w)
    × (feedback_due morning (some evening) ≡ ok d)
feedback_due_total_example =
    feedback_due_total morning evening morning-IsValid evening-IsValid (omega arith) (omega arith)

abbrev not_sent : Option Datetime
not_sent = none

abbrev passed : Deadline
passed = record { state = State.overdue; due = morning; days = negsuc 0 }

too_late : feedback_status (some morning) none evening ≡ some passed
unfolding feedback_status advance next_day days_in_month stamp ordinal days_before_year
    days_before_month floor_div
too_late = refl

feedback_status-warning_iff_example : (passed.state ≡ State.warning) ↔ (
    (not_sent ≡ none)
    × (stamp evening ≤ stamp morning)
    × (stamp morning < stamp evening + 15 * day_micros))
feedback_status-warning_iff_example =
    feedback_status-warning_iff morning evening none passed too_late

in_time : ack_on_time morning (some evening) ≡ ok true
unfolding ack_on_time advance next_day days_in_month stamp ordinal days_before_year
    days_before_month
in_time = refl

abbrev at_first : Deadline
at_first = record { state = State.ok_state; due = last_second 5 8; days = pos 0 }

first_status : ack_status morning none evening ≡ ok at_first
unfolding ack_status advance next_day days_in_month stamp ordinal days_before_year days_before_month
    floor_div
first_status = refl

ack_status-overdue_iff_example :
    (at_first.state ≡ State.overdue) ↔ (ordinal morning + ack_days < ordinal evening)
ack_status-overdue_iff_example =
    ack_status-overdue_iff morning evening at_first morning-IsValid evening-IsValid first_status
