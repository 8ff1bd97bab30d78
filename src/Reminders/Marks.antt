-- ===== src/Reminders/Marks.antt =====
-- The marks of sent reminders, check by check.
use open_whistle.Base.{
  ℕ, ◌+◌, ◌<◌, String, ◌≡◌, refl, ◌⊎◌, inl, inr, Bool, true, false, ◌||◌, Option, none, some, List,
  ◌∷◌, arith, if◌then◌else◌, is_some, lt→ltb, Bool-cases, Option-cases,
}
use open_whistle.Base.Int.{ℤ, pos, ltb_ℤ}
use open_whistle.Base.Outcome.{Outcome, ok, ◌>>=◌, >>=-eq-ok}
use mathlib.Core.Path.{subst}
use text.Mathlib.TextEquality.{eq_iff}
use text.Mathlib.Text.{◌==◌ as str_eq}
use open_whistle.Calendar.{Datetime, days_between}
use open_whistle.Deadlines.{ack_due}
use open_whistle.Models.{Report}
use open_whistle.Reminders.{
  Kind, acknowledgement, feedback, kind_eq, Mark, ReminderSettings, Mail, dedup_ttl_seconds,
  is_marked, dispatch_reminder, new_mark, remind, check_feedback_due, check_ack_reminder,
  check_feedback_reminder,
}

kind_eq_refl : (kind : Kind) → kind_eq kind kind ≡ true
kind_eq_refl acknowledgement = refl
kind_eq_refl feedback = refl

str_eq_refl : (text : String) → str_eq text text ≡ true
str_eq_refl text = ground (arith, eq_iff text text)

or_true : (a : Bool) {b : Bool} → b ≡ true → (a || b) ≡ true
or_true true h = refl
or_true false h = h

-- A mark that stands stays, whatever is marked besides.
unfoldable pub IsKept : List Mark → List Mark → Type 0
IsKept marks marks' =
    (kind : Kind) (case_number : String) (second : ℕ)
    → is_marked kind case_number second marks ≡ true
    → is_marked kind case_number second marks' ≡ true

module _ (cfg : ReminderSettings) (mail : Mail) where
  abbrev pub nothing_sent : List Mark → Outcome (Bool × List Mark)
  nothing_sent marks = ok (false, marks)

  abbrev one_sent : Mark → List Mark → Outcome (Bool × List Mark)
  one_sent mark marks = ok (true, mark ∷ marks)

  sent-cases :
      (answer sent : Bool) (mark : Mark) (marks marks' : List Mark)
      → (if answer then one_sent mark marks else nothing_sent marks) ≡ ok (sent, marks')
      → ((sent ≡ false) × (marks' ≡ marks)) ⊎ ((sent ≡ true) × (marks' ≡ mark ∷ marks))
  sent-cases true sent mark marks marks' h = inr (cc, cc)
  sent-cases false sent mark marks marks' h = inl (cc, cc)

  -- A check leaves the marks alone, or it sent a reminder and adds its mark.
  remind-cases :
      (kind : Kind) (case_number : String) (days_left : ℤ) (second : ℕ) (marks : List Mark)
      (sent : Bool) (marks' : List Mark)
      → remind cfg mail kind case_number days_left second marks ≡ ok (sent, marks')
      → ((sent ≡ false) × (marks' ≡ marks))
        ⊎ ((sent ≡ true) × (marks' ≡ new_mark kind case_number days_left second ∷ marks))
  unfolding remind
  remind-cases kind case_number days_left second marks sent marks' h =
      let mark = new_mark kind case_number days_left second in
      let next =
        dispatch_reminder cfg mail kind case_number days_left
        >>= (λ s. if s then one_sent mark marks else nothing_sent marks) in
      elim (Bool-cases (is_marked kind case_number second marks)) [
        | inl e ↦
            let same : (if true then nothing_sent marks else next) ≡ ok (sent, marks') =
              subst (λ b. (if b then nothing_sent marks else next) ≡ ok (sent, marks')) e h in
            inl (cc, cc)
        | inr e ↦
            let asked : next ≡ ok (sent, marks') =
              subst (λ b. (if b then nothing_sent marks else next) ≡ ok (sent, marks')) e h in
            let (answer, _, h₁) =
              >>=-eq-ok (dispatch_reminder cfg mail kind case_number days_left) _ asked in
            sent-cases answer sent mark marks marks' h₁
      ]

  remind-IsKept :
      (kind : Kind) (case_number : String) (days_left : ℤ) (second : ℕ) (marks : List Mark)
      (sent : Bool) (marks' : List Mark)
      → remind cfg mail kind case_number days_left second marks ≡ ok (sent, marks')
      → IsKept marks marks'
  unfolding IsKept is_marked
  remind-IsKept kind case_number days_left second marks sent marks' h k c s m =
      elim (remind-cases kind case_number days_left second marks sent marks' h) [
        | inl (_, same) ↦ rw same m
        | inr (_, more) ↦ rw more (or_true _ m)
      ]

  pub remind-marks :
      (kind : Kind) (case_number : String) (days_left : ℤ) (second later : ℕ)
      (marks marks' : List Mark)
      → remind cfg mail kind case_number days_left second marks ≡ ok (true, marks')
      → later < second + dedup_ttl_seconds days_left
      → is_marked kind case_number later marks' ≡ true
  unfolding is_marked new_mark
  remind-marks kind case_number days_left second later marks marks' h soon =
      elim (remind-cases kind case_number days_left second marks true marks' h) [
        | inl (not_sent, _) ↦ cc
        | inr (_, more) ↦ rw more (
            rw
              (
                kind_eq_refl kind,
                str_eq_refl case_number,
                lt→ltb later (second + dedup_ttl_seconds days_left) soon,
              )
              refl)
      ]

  pub marked-remind :
      (kind : Kind) (case_number : String) (days_left : ℤ) (second : ℕ) (marks : List Mark)
      → is_marked kind case_number second marks ≡ true
      → remind cfg mail kind case_number days_left second marks ≡ ok (false, marks)
  unfolding remind
  marked-remind kind case_number days_left second marks m = rw m refl

  unsent-IsKept :
      (marks : List Mark) (sent : Bool) (marks' : List Mark)
      → nothing_sent marks ≡ ok (sent, marks')
      → IsKept marks marks'
  unfolding IsKept
  unsent-IsKept marks sent marks' h k c s m = let same : marks' ≡ marks = cc in rw same m

  -- A test that ends a check before its reminder.
  if-IsKept :
      (b : Bool) (marks : List Mark) (sent : Bool) (marks' : List Mark)
      (next : Outcome (Bool × List Mark))
      → (next ≡ ok (sent, marks') → IsKept marks marks')
      → (if b then nothing_sent marks else next) ≡ ok (sent, marks')
      → IsKept marks marks'
  unfolding IsKept
  if-IsKept true marks sent marks' next f h = unsent-IsKept marks sent marks' h
  if-IsKept false marks sent marks' next f h = f h

  pub check_ack_reminder-IsKept :
      (now : Datetime) (second : ℕ) (r : Report) (marks : List Mark) (sent : Bool)
      (marks' : List Mark)
      → check_ack_reminder cfg mail now second r marks ≡ ok (sent, marks')
      → IsKept marks marks'
  unfolding check_ack_reminder
  check_ack_reminder-IsKept now second r marks sent marks' h =
      if-IsKept (is_some r.acknowledged_at) marks sent marks' _
        (λ h₁.
          let (due, _, h₂) = >>=-eq-ok (ack_due r.submitted_at) _ h₁ in
          if-IsKept (ltb_ℤ (pos cfg.reminder_ack_warn_days) (days_between due now)) marks sent
            marks' _
            (remind-IsKept acknowledgement r.case_number (days_between due now) second marks sent
              marks')
            h₂)
        h

  check_feedback_due-IsKept :
      (now : Datetime) (second : ℕ) (r : Report) (due : Datetime) (marks : List Mark) (sent : Bool)
      (marks' : List Mark)
      → check_feedback_due cfg mail now second r marks due ≡ ok (sent, marks')
      → IsKept marks marks'
  unfolding check_feedback_due
  check_feedback_due-IsKept now second r due marks sent marks' h =
      if-IsKept (is_some r.feedback_sent_at) marks sent marks' _
        (if-IsKept (ltb_ℤ (pos cfg.reminder_feedback_warn_days) (days_between due now)) marks sent
          marks' _
          (remind-IsKept feedback r.case_number (days_between due now) second marks sent marks'))
        h

  pub check_feedback_reminder-IsKept :
      (now : Datetime) (second : ℕ) (r : Report) (marks : List Mark) (sent : Bool)
      (marks' : List Mark)
      → check_feedback_reminder cfg mail now second r marks ≡ ok (sent, marks')
      → IsKept marks marks'
  unfolding check_feedback_reminder
  check_feedback_reminder-IsKept now second r marks sent marks' h =
      let answer : Option Datetime → Outcome (Bool × List Mark) = λ o. elim o [
        | none ↦ ok (false, marks)
        | some due ↦ check_feedback_due cfg mail now second r marks due
      ] in
      elim (Option-cases r.feedback_due_at) [
        | inl e ↦ unsent-IsKept marks sent marks' (subst (λ o. answer o ≡ ok (sent, marks')) e h)
        | inr (due, e) ↦
            check_feedback_due-IsKept now second r due marks sent marks'
              (subst (λ o. answer o ≡ ok (sent, marks')) e h)
      ]
