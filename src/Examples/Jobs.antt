-- ===== src/Examples/Jobs.antt =====
-- The counters of failed attempts, and a run of the retention job.
use open_whistle.Base.{
  ◌*◌, ◌↔◌, true, ◌+◌, ◌≤◌, ◌<◌, String, ◌≡◌, refl, false, Option, none, some, List, [], ◌∷◌, arith,
  keep, All,
}
use open_whistle.Base.Int.{pos_part, ℤ, pos, floor_div}
use open_whistle.Models.{Report, Status, Db}
use open_whistle.Base.Outcome.{ok}
use open_whistle.Deadlines.{ack_due}
use open_whistle.Reminders.{Kind, Mark, ReminderSettings, Mail, new_mark, check_ack_reminder}
use open_whistle.Reminders.Once.{Runs, check_ack_reminder-once}
use open_whistle.Calendar.{
  advance, next_day, stamp, ordinal, days_before_year, days_before_month, days_between, Datetime,
  retreat, days_in_month,
}
use open_whistle.Examples.{second_case, fresh_case, morning, office, redis}
use open_whistle.Retention.{cutoff, is_past, run_retention_cleanup}
use open_whistle.Retention.Erasure.{IsExpired, IsCleaned, run-IsCleaned}
use open_whistle.RateLimit.{
  Key, Counter, Store, get, add, set, claim, settle, record_instance_login_failure,
}
use open_whistle.RateLimit.Interleaving.{Race, Command, Commands, Commands-bounded}
use open_whistle.RateLimit.Windows.{alerts, alerts-once}

abbrev same_text : String → String
same_text text = text

abbrev in_an_hour : ℤ → Option Counter
in_an_hour n = some (record { value = n; expires = some 3600 })

abbrev locked : Store
locked = set Key.setup_token (in_an_hour (pos 1)) (λ k. none)

abbrev still_locked : Store
still_locked = set Key.setup_token (in_an_hour (pos 1)) locked

one_is_refused : claim 1 60 same_text 10 Key.setup_token locked ≡ (false, still_locked)
unfolding claim
one_is_refused = refl

abbrev nothing : Store
nothing k = none

first_alert : (record_instance_login_failure 1 5 600 nothing).0 ≡ true
unfolding record_instance_login_failure
first_alert = refl

alerts-once_example :
    All
      (λ b. b ≡ false)
      (alerts 1 5 (610 ∷ 899 ∷ []) (record_instance_login_failure 1 5 600 nothing).1)
alerts-once_example =
    alerts-once 1 5 600 (610 ∷ 899 ∷ []) nothing first_alert (omega arith, (omega arith, tt))

-- The limit is one. Two attempts count before the first is answered, which succeeds and deletes
-- the counter; the second is refused after that, and two more attempts are allowed.
abbrev two_allowed : Race
two_allowed = record {
  cell = some (record { value = pos 1; expires = some 3610 });
  granted = 2;
  under_way = [];
  earlier = 0;
  carried = 1;
}

race : Commands 1 60 same_text two_allowed
unfolding add settle get
race =
    let counted_twice =
      Commands.then_one (Commands.then_one Commands.start (Command.count_one 10 refl))
        (Command.count_one 10 refl) in
    let succeeded =
      Commands.then_one
        (Commands.then_one counted_twice (Command.allow 10 (pos 2 ∷ []) [] (pos 1) refl refl refl))
        (Command.delete (omega arith)) in
    let refused =
      Commands.then_one succeeded (Command.refuse_late 10 (pos 2) refl (omega arith) refl) in
    let third =
      Commands.then_one (Commands.then_one refused (Command.count_one 10 refl))
        (Command.allow 10 [] [] (pos 0) refl refl refl) in
    Commands.then_one (Commands.then_one third (Command.count_one 10 refl))
      (Command.allow 10 [] [] (pos 1) refl refl refl)

Commands-bounded_example : 2 ≤ 1 + 1
Commands-bounded_example = Commands-bounded 1 60 same_text race

abbrev closed_case : Report
closed_case = record (fresh_case 9 "OW-2023-00009") {
  status = Status.closed;
  closed_at = some (record { year = 2023; month = 4; day = 30; micros = 0 });
}

abbrev old_office : Db
old_office = record office { reports = closed_case ∷ second_case ∷ [] }

abbrev three_years_ago : Datetime
three_years_ago = record morning { year = 2023 }

due : cutoff morning 1095 ≡ ok three_years_ago
unfolding cutoff retreat days_in_month
due = refl

run-IsCleaned_example :
    ((r : Report) → (is_past three_years_ago r ≡ true) ↔ IsExpired three_years_ago r)
    × IsCleaned
        (λ at. "then")
        (λ n. "1095")
        1095
        (keep (is_past three_years_ago) old_office.reports)
        old_office
        (run_retention_cleanup
          (λ at. "then")
          (λ n. "1095")
          1095
          true
          (some true)
          morning
          old_office
          redis).0
run-IsCleaned_example =
    run-IsCleaned (λ at. "then") (λ n. "1095") 1095 (some true) morning three_years_ago old_office
      redis due (λ h. cc)

abbrev late_settings : ReminderSettings
late_settings = record {
  notify_email_enabled = false;
  notify_email_to = "";
  reminder_ack_warn_days = 7;
  reminder_feedback_warn_days = 14;
}

abbrev no_mail : Mail
no_mail kind case_number days_left = ok true

abbrev week_later : Datetime
week_later = record { year = 2026; month = 5; day = 8; micros = 86399999999 }

due_in_a_week : ack_due second_case.submitted_at ≡ ok week_later
unfolding ack_due advance next_day days_in_month
due_in_a_week = refl

abbrev one_mark : List Mark
one_mark = new_mark Kind.acknowledgement "OW-2026-00002" (days_between week_later morning) 100 ∷ []

is_reminded :
    check_ack_reminder late_settings no_mail morning 100 second_case [] ≡ ok (true, one_mark)
unfolding check_ack_reminder advance next_day days_in_month stamp ordinal days_before_year
    days_before_month floor_div
is_reminded = refl

is_not_reminded :
    check_ack_reminder late_settings no_mail morning 500 second_case one_mark ≡ ok (false, one_mark)
unfolding check_ack_reminder advance next_day days_in_month stamp ordinal days_before_year
    days_before_month floor_div new_mark
is_not_reminded = refl

within_a_day : 500 < 100 + (1 + pos_part (days_between week_later morning)) * 86400
within_a_day = omega arith

check_ack_reminder-once_example : false ≡ false
check_ack_reminder-once_example =
    check_ack_reminder-once late_settings no_mail morning morning 100 500 second_case week_later []
      one_mark one_mark false one_mark due_in_a_week is_reminded within_a_day Runs.no_run
      is_not_reminded
