-- ===== src/Reminders.antt =====
-- app/services/reminders.py: the reminders of missed and coming deadlines. `mail` is the call of the
-- mail server with the case and the days left; none means that it raised. The lock of the job and
-- the connections are not modelled: a run is one that holds the lock.
pub mod Marks
pub mod Once
use open_whistle.Base.{
  ℕ, zero, suc, ◌+◌, ◌-◌, ◌*◌, ◌/◌, ◌%◌, ◌≤◌, ◌<◌, min, max, String, ◌≡◌, refl, sym, ap, ◌∙◌,
  ◌≡⟨◌⟩◌, ◌∎, ◌≢◌, ◌↔◌, ◌⊎◌, inl, inr, Bool, true, false, not, ◌&&◌, ◌||◌, Option, none, some, List,
  [], ◌∷◌, ◌++◌, map, arith, ltb, leb, ◌==◌, if◌then◌else◌, opt_eq, is_some, ltb→lt, lt→ltb, leb→le,
  le→leb, ==→eq, ==-refl, opt_eq→eq, opt_eq_refl, Bool-cases, Option-cases, length, take, drop,
  keep, find, any, all, length-append, length-keep-le, find_sound, All, All-append, All-keep,
}
use open_whistle.Base.Int.{
  ℤ, pos, negsuc, pos_part, neg_part, sub_ℕ, ◌+ℤ◌, ◌≤ℤ◌, ltb_ℤ, leb_ℤ, floor_div, floor_mod,
}
use open_whistle.Base.Outcome.{
  Outcome, ok, http, raised, ◌>>=◌, ◌>>◌, demand, present, >>=-eq-ok, demand-eq-ok, present-eq-ok,
}
use text.Mathlib.Text.{◌==◌ as str_eq}
use open_whistle.Base.Text.{strip, is_empty}
use open_whistle.Calendar.{Datetime, days_between}
use open_whistle.Deadlines.{ack_due}
use open_whistle.Models.{Report, Status, status_eq}

pub data Kind : Type 0 where
  acknowledgement feedback : Kind

abbrev pub kind_eq : Kind → Kind → Bool
kind_eq acknowledgement acknowledgement = true
kind_eq feedback feedback = true
kind_eq _ _ = false

-- A mark in Redis: which reminder of which case was sent, and the second at which it is gone.
pub record Mark : Type 0 where
  pub kind : Kind
  pub case_number : String
  pub expires : ℕ

pub record ReminderSettings : Type 0 where
  pub notify_email_enabled : Bool
  pub notify_email_to : String
  pub reminder_ack_warn_days : ℕ
  pub reminder_feedback_warn_days : ℕ

-- What the mail server does with one reminder: the send succeeds or is refused, or it raises.
abbrev pub Mail : Type 0
Mail = Kind → String → ℤ → Outcome Bool

unfoldable pub dedup_ttl_seconds : ℤ → ℕ
dedup_ttl_seconds days_left = pos_part days_left * 86400 + 86400

-- EXISTS at a second
unfoldable pub is_marked : Kind → String → ℕ → List Mark → Bool
is_marked kind case_number second marks =
    any (λ m. kind_eq m.kind kind && str_eq m.case_number case_number && ltb second m.expires) marks

unfoldable pub dispatch_reminder : ReminderSettings → Mail → Kind → String → ℤ → Outcome Bool
unfolding strip is_empty
dispatch_reminder cfg mail kind case_number days_left =
    if cfg.notify_email_enabled && not (is_empty (strip cfg.notify_email_to))
    then mail kind case_number days_left
    else ok true

-- redis.set(key, "1", ex=…)
unfoldable pub new_mark : Kind → String → ℤ → ℕ → Mark
unfolding dedup_ttl_seconds
new_mark kind case_number days_left second = record {
  kind = kind;
  case_number = case_number;
  expires = second + dedup_ttl_seconds days_left;
}

-- What both checks do once they know that the reminder is due: whether one was sent, and the marks.
unfoldable pub remind :
    ReminderSettings → Mail → Kind → String → ℤ → ℕ → List Mark → Outcome (Bool × List Mark)
unfolding is_marked dispatch_reminder new_mark
remind cfg mail kind case_number days_left second marks =
    if is_marked kind case_number second marks
    then ok (false, marks)
    else dispatch_reminder cfg mail kind case_number days_left >>= λ sent.
        if sent
        then ok (true, new_mark kind case_number days_left second ∷ marks)
        else ok (false, marks)

unfoldable pub check_ack_reminder :
    ReminderSettings → Mail → Datetime → ℕ → Report → List Mark → Outcome (Bool × List Mark)
unfolding ack_due days_between remind
check_ack_reminder cfg mail now second r marks =
    if is_some r.acknowledged_at
    then ok (false, marks)
    else ack_due r.submitted_at >>= λ due.
        let days_left = days_between due now in
        if ltb_ℤ (pos cfg.reminder_ack_warn_days) days_left
        then ok (false, marks)
        else remind cfg mail acknowledgement r.case_number days_left second marks

-- The check of a report with a feedback deadline.
unfoldable pub check_feedback_due :
    ReminderSettings
    → Mail
    → Datetime
    → ℕ
    → Report
    → List Mark
    → Datetime
    → Outcome (Bool × List Mark)
unfolding days_between remind
check_feedback_due cfg mail now second r marks due =
    let days_left = days_between due now in
    if is_some r.feedback_sent_at
    then ok (false, marks)
    else if ltb_ℤ (pos cfg.reminder_feedback_warn_days) days_left
    then ok (false, marks)
    else remind cfg mail feedback r.case_number days_left second marks

unfoldable pub check_feedback_reminder :
    ReminderSettings → Mail → Datetime → ℕ → Report → List Mark → Outcome (Bool × List Mark)
unfolding check_feedback_due
check_feedback_reminder cfg mail now second r marks = elim r.feedback_due_at [
  | none ↦ ok (false, marks)
  | some due ↦ check_feedback_due cfg mail now second r marks due
]

-- The counts of reminders sent, and the marks.
pub record Run : Type 0 where
  pub ack_due : ℕ
  pub feedback_due : ℕ
  pub marks : List Mark

abbrev pub one_if : Bool → ℕ
one_if true = 1
one_if false = 0

unfoldable pub count_feedback : Run → Outcome (Bool × List Mark) → Run
count_feedback run (ok next) = record run {
  feedback_due = run.feedback_due + one_if next.0;
  marks = next.1;
}
count_feedback run (http status) = run
count_feedback run raised = run

unfoldable pub count_ack :
    Run → Outcome (Bool × List Mark) → (List Mark → Outcome (Bool × List Mark)) → Run
unfolding count_feedback
count_ack run (ok first) second_check =
    count_feedback (record run { ack_due = run.ack_due + one_if first.0; marks = first.1 })
      (second_check first.1)
count_ack run (http status) second_check = run
count_ack run raised second_check = run

-- The two checks of one report; an exception ends its checks and keeps what was done before.
unfoldable pub check_report : ReminderSettings → Mail → Datetime → ℕ → Report → Run → Run
unfolding check_ack_reminder check_feedback_reminder count_ack
check_report cfg mail now second r run =
    count_ack run (check_ack_reminder cfg mail now second r run.marks)
      (check_feedback_reminder cfg mail now second r)

unfoldable pub check_all : ReminderSettings → Mail → Datetime → ℕ → List Report → Run → Run
unfolding check_report
check_all cfg mail now second [] run = run
check_all cfg mail now second (r ∷ rs) run =
    check_all cfg mail now second rs (check_report cfg mail now second r run)

-- The run over the table: every report that is not closed. The webhook is sent with the two counts
-- unless both are 0.
unfoldable pub send_sla_reminders :
    ReminderSettings → Mail → Datetime → ℕ → List Report → List Mark → Run
unfolding check_all
send_sla_reminders cfg mail now second reports marks =
    check_all cfg mail now second (keep (λ r. not (status_eq r.status Status.closed)) reports)
      (record { ack_due = 0; feedback_due = 0; marks = marks })
