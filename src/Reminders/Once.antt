-- ===== src/Reminders/Once.antt =====
-- The marks of sent reminders over the runs of the job.
use open_whistle.Base.{◌*◌}
use open_whistle.Base.Int.{ℤ, pos_part}
use open_whistle.Base.{arith}
use open_whistle.Base.{
  ℕ, ◌+◌, ◌<◌, ◌≡◌, refl, Bool, true, false, not, List, [], ◌∷◌, if◌then◌else◌, is_some, keep,
}
use open_whistle.Base.Int.{pos, ltb_ℤ}
use open_whistle.Base.Outcome.{Outcome, ok, http, raised, ◌>>=◌, >>=-eq-ok}
use mathlib.Core.Path.{subst}
use open_whistle.Reminders.Marks.{
  IsKept, nothing_sent, remind-marks, marked-remind, check_ack_reminder-IsKept,
  check_feedback_reminder-IsKept,
}
use open_whistle.Calendar.{Datetime, days_between}
use open_whistle.Deadlines.{ack_due}
use open_whistle.Models.{Report, Status, status_eq}
use open_whistle.Reminders.{
  acknowledgement, Mark, ReminderSettings, Mail, dedup_ttl_seconds, is_marked, remind,
  check_ack_reminder, check_feedback_reminder, Run, one_if, count_feedback, count_ack, check_report,
  check_all, send_sla_reminders,
}

IsKept-trans : (a b c : List Mark) → IsKept a b → IsKept b c → IsKept a c
unfolding IsKept
IsKept-trans a b c ab bc k n s m = bc k n s (ab k n s m)

IsKept-refl : (a : List Mark) → IsKept a a
unfolding IsKept
IsKept-refl a k n s m = m

count_feedback-IsKept :
    (run : Run) (answer : Outcome (Bool × List Mark))
    → ((sent : Bool) (marks : List Mark) → answer ≡ ok (sent, marks) → IsKept run.marks marks)
    → IsKept run.marks (count_feedback run answer).marks
unfolding count_feedback
count_feedback-IsKept run (ok next) f = f next.0 next.1 refl
count_feedback-IsKept run (http status) f = IsKept-refl run.marks
count_feedback-IsKept run raised f = IsKept-refl run.marks

count_ack-IsKept :
    (run : Run) (answer : Outcome (Bool × List Mark))
    (second_check : List Mark → Outcome (Bool × List Mark))
    → ((sent : Bool) (marks : List Mark) → answer ≡ ok (sent, marks) → IsKept run.marks marks)
    → ((before : List Mark) (sent : Bool) (marks : List Mark)
        → second_check before ≡ ok (sent, marks)
        → IsKept before marks)
    → IsKept run.marks (count_ack run answer second_check).marks
unfolding count_ack
count_ack-IsKept run (ok first) second_check f g = IsKept-trans _ _ _ (f first.0 first.1 refl) (
    count_feedback-IsKept (record run { ack_due = run.ack_due + one_if first.0; marks = first.1 })
      (second_check first.1) (g first.1))
count_ack-IsKept run (http status) second_check f g = IsKept-refl run.marks
count_ack-IsKept run raised second_check f g = IsKept-refl run.marks

lasts :
    (days : ℤ) (second later : ℕ)
    → later < second + (1 + pos_part days) * 86400
    → later < second + dedup_ttl_seconds days
unfolding dedup_ttl_seconds
lasts days second later soon = omega (arith, soon)

module _ (cfg : ReminderSettings) (mail : Mail) where
  check_report-IsKept :
      (now : Datetime) (second : ℕ) (r : Report) (run : Run)
      → IsKept run.marks (check_report cfg mail now second r run).marks
  unfolding check_report
  check_report-IsKept now second r run =
      count_ack-IsKept run (check_ack_reminder cfg mail now second r run.marks)
        (check_feedback_reminder cfg mail now second r)
        (check_ack_reminder-IsKept cfg mail now second r run.marks)
        (check_feedback_reminder-IsKept cfg mail now second r)

  check_all-IsKept :
      (now : Datetime) (second : ℕ) (rs : List Report) (run : Run)
      → IsKept run.marks (check_all cfg mail now second rs run).marks
  unfolding check_all
  check_all-IsKept now second [] run = IsKept-refl run.marks
  check_all-IsKept now second (r ∷ rs) run =
      IsKept-trans _ _ _ (check_report-IsKept now second r run)
        (check_all-IsKept now second rs (check_report cfg mail now second r run))

  -- Runs of the job, one after another.
  pub data Runs (marks : List Mark) : List Mark → Type 0 where
    no_run : Runs marks marks
    then_run :
        {marks' : List Mark}
        → Runs marks marks'
        → (now : Datetime) (second : ℕ) (reports : List Report)
        → Runs marks (send_sla_reminders cfg mail now second reports marks').marks

  Runs-IsKept : {marks marks' : List Mark} → Runs marks marks' → IsKept marks marks'
  unfolding send_sla_reminders
  Runs-IsKept {marks} no_run = IsKept-refl marks
  Runs-IsKept (then_run {marks'} before now second reports) =
      IsKept-trans _ _ _ (Runs-IsKept before) (
        check_all-IsKept now second (keep (λ r. not (status_eq r.status Status.closed)) reports)
          (record { ack_due = 0; feedback_due = 0; marks = marks' }))

  if-sent :
      (b : Bool) (marks marks' : List Mark) (next : Outcome (Bool × List Mark))
      → (if b then nothing_sent cfg mail marks else next) ≡ ok (true, marks')
      → next ≡ ok (true, marks')
  if-sent true marks marks' next h = cc
  if-sent false marks marks' next h = h

  if-unsent :
      (b : Bool) (marks : List Mark) (sent : Bool) (marks' : List Mark)
      (next : Outcome (Bool × List Mark))
      → (next ≡ ok (sent, marks') → sent ≡ false)
      → (if b then nothing_sent cfg mail marks else next) ≡ ok (sent, marks')
      → sent ≡ false
  if-unsent true marks sent marks' next f h = cc
  if-unsent false marks sent marks' next f h = f h

  ack_reminder-marks :
      (now : Datetime) (second later : ℕ) (r : Report) (due : Datetime) (marks marks' : List Mark)
      → ack_due r.submitted_at ≡ ok due
      → check_ack_reminder cfg mail now second r marks ≡ ok (true, marks')
      → later < second + (1 + pos_part (days_between due now)) * 86400
      → is_marked acknowledgement r.case_number later marks' ≡ true
  unfolding check_ack_reminder
  ack_reminder-marks now second later r due marks marks' on h soon =
      let h₁ = if-sent (is_some r.acknowledged_at) marks marks' _ h in
      let h₂ =
        subst
          (λ (o : Outcome Datetime).
            (o >>= (λ due.
              if ltb_ℤ (pos cfg.reminder_ack_warn_days) (days_between due now)
              then nothing_sent cfg mail marks
              else remind cfg mail acknowledgement r.case_number (days_between due now) second
                  marks))
            ≡ ok (true, marks'))
          on h₁ in
      remind-marks cfg mail acknowledgement r.case_number (days_between due now) second later marks
        marks'
        (if-sent (ltb_ℤ (pos cfg.reminder_ack_warn_days) (days_between due now)) marks marks' _ h₂)
        (lasts (days_between due now) second later soon)

  -- Once a check has sent the reminder of an acknowledgement, then whatever runs come in between,
  -- a check of the same case less than a day later, and a day more for each whole day that was
  -- left, that returns sends none.
  pub check_ack_reminder-once :
      (now now' : Datetime) (second later : ℕ) (r : Report) (due : Datetime)
      (marks marks' marks'' : List Mark) (sent : Bool) (after : List Mark)
      → ack_due r.submitted_at ≡ ok due
      → check_ack_reminder cfg mail now second r marks ≡ ok (true, marks')
      → later < second + (1 + pos_part (days_between due now)) * 86400
      → Runs marks' marks''
      → check_ack_reminder cfg mail now' later r marks'' ≡ ok (sent, after)
      → sent ≡ false
  unfolding IsKept check_ack_reminder
  check_ack_reminder-once now now' second later r due marks marks' marks'' sent after on h soon runs
        h' =
      let marked =
        Runs-IsKept runs acknowledgement r.case_number later
          (ack_reminder-marks now second later r due marks marks' on h soon) in
      if-unsent (is_some r.acknowledged_at) marks'' sent after _
        (λ h₁.
          let (due', _, h₂) = >>=-eq-ok (ack_due r.submitted_at) _ h₁ in
          if-unsent (ltb_ℤ (pos cfg.reminder_ack_warn_days) (days_between due' now')) marks'' sent
            after _
            (λ h₃.
              let quiet =
                marked-remind cfg mail acknowledgement r.case_number (days_between due' now') later
                  marks'' marked in
              cc)
            h₂)
        h'
