-- ===== src/Deadlines/Feedback.antt =====
-- The feedback deadline of app/services/deadlines.py, with and without an acknowledgement.
use open_whistle.Base.{ℕ, ◌+◌, ◌*◌, ◌≤◌, ◌<◌, ◌≡◌, sym, ◌∙◌, ◌↔◌, Option, none, some, arith}
use open_whistle.Base.Int.{pos, ◌≤ℤ◌, floor_div}
use open_whistle.Base.Outcome.{ok, >>=-eq-ok}
use open_whistle.Calendar.{
  Datetime, day_micros, max_year, ordinal, stamp, min_time, days_between, add_days, advance,
  IsValid,
}
use open_whistle.Calendar.Ordinal.{index}
use open_whistle.Deadlines.{
  ack_days, feedback_months, feedback_warn_days, add_months, end_of_day, without_ack, feedback_due,
  feedback_status, warning, Deadline,
}
use open_whistle.Deadlines.Months.{IsShifted, IsShifted-mono, add_months-forward, add_months-total}
use open_whistle.Deadlines.Acknowledgement.{add_days-ok, add_days-total}

-- The feedback deadline without an acknowledgement: three months and seven days after receipt.
without_ack-ok :
    (t w : Datetime)
    → IsValid t
    → without_ack t ≡ ok w
    → (m x : Datetime) × IsShifted t (index t + feedback_months) m
      × IsValid x
      × (ordinal x ≡ ordinal m + ack_days)
      × (w ≡ end_of_day x)
unfolding without_ack
without_ack-ok t w v h =
    let (m, shifted, k) = >>=-eq-ok (add_months t (pos feedback_months)) _ h in
    let (x, added, made) = >>=-eq-ok (add_days m ack_days) _ k in
    let sh = add_months-forward t feedback_months m v shifted in
    let (valid, days) = add_days-ok m x ack_days sh.valid added in (m, x, sh, valid, days, cc)

-- Where both feedback deadlines exist, the one with an acknowledgement is no later than the one
-- without.
pub feedback_due-le-without_ack :
    (s a d w : Datetime)
    → feedback_due s none ≡ ok w
    → feedback_due s (some a) ≡ ok d
    → stamp d ≤ stamp w
unfolding feedback_due min_time
feedback_due-le-without_ack s a d w hw hd = ground arith

feedback_due-ok :
    (s a d : Datetime)
    → IsValid a
    → feedback_due s (some a) ≡ ok d
    → (w m : Datetime) × (without_ack s ≡ ok w)
      × IsShifted a (index a + feedback_months) m
      × (d ≡ min_time (end_of_day m) w)
unfolding feedback_due
feedback_due-ok s a d va h =
    let (w, latest, k) = >>=-eq-ok (without_ack s) _ h in
    let (m, shifted, made) = >>=-eq-ok (add_months a (pos feedback_months)) _ k in
    (w, m, latest, add_months-forward a feedback_months m va shifted, cc)

min_time_mono : (a b w : Datetime) → stamp a ≤ stamp b → stamp (min_time a w) ≤ stamp (min_time b w)
unfolding min_time
min_time_mono a b w h = ground arith

stamp-end_of_day_mono :
    (a b : Datetime) → ordinal a ≤ ordinal b → stamp (end_of_day a) ≤ stamp (end_of_day b)
unfolding stamp end_of_day ordinal
stamp-end_of_day_mono a b h = omega arith

-- Of two valid acknowledgements of a case that both have a feedback deadline, the one on the
-- earlier day, or on the same, has no later one.
pub feedback_due_mono :
    (s a b da db : Datetime)
    → IsValid a
    → IsValid b
    → ordinal a ≤ ordinal b
    → feedback_due s (some a) ≡ ok da
    → feedback_due s (some b) ≡ ok db
    → stamp da ≤ stamp db
feedback_due_mono s a b da db va vb le ha hb =
    let (w, m, late, sm, e) = feedback_due-ok s a da va ha in
    let (w', m', late', sm', e') = feedback_due-ok s b db vb hb in
    let same : w' ≡ w = cc (sym late ∙ late') in
    rw (e, e', same)
      (min_time_mono (end_of_day m) (end_of_day m') w
        (stamp-end_of_day_mono m m' (IsShifted-mono a b m m' feedback_months va vb sm sm' le)))

-- For valid dates of receipt and acknowledgement with four and three months of the calendar left,
-- the feedback deadline exists, acknowledged or not.
pub feedback_due_total :
    (s a : Datetime)
    → IsValid s
    → IsValid a
    → index s + 4 < (max_year + 1) * 12
    → index a + 3 < (max_year + 1) * 12
    → (w d : Datetime) × (feedback_due s none ≡ ok w) × (feedback_due s (some a) ≡ ok d)
unfolding feedback_due without_ack
feedback_due_total s a vs va hs ha =
    let (m, em) = add_months-total s feedback_months vs (omega arith) in
    let (k, ek) = add_months-total a feedback_months va (omega arith) in
    let sm = add_months-forward s feedback_months m vs em in
    let ed = add_days-total m ack_days sm.valid (omega arith) (omega (arith, sm.month_index)) in
    let w = end_of_day (advance ack_days m) in
    (w, min_time (end_of_day k) w, rw (em, ed), rw (em, ed, ek))

-- A day count is at most `n` exactly when fewer than n + 1 whole days are left.
days_between-le :
    (a b : Datetime) (n : ℕ)
    → (days_between a b ≤ℤ pos n) ↔ (stamp a < stamp b + (n + 1) * day_micros)
unfolding days_between floor_div
days_between-le a b n = (ground arith, ground arith)

-- With a deadline, the state is a warning exactly when no feedback was sent, the deadline has not
-- passed, and it is less than fifteen days away.
pub feedback_status-warning_iff :
    (due now : Datetime) (sent : Option Datetime) (r : Deadline)
    → feedback_status (some due) sent now ≡ some r
    → (r.state ≡ warning)
      ↔ ((sent ≡ none) × (stamp now ≤ stamp due) × (stamp due < stamp now + 15 * day_micros))
unfolding feedback_status
feedback_status-warning_iff due now none r h =
    let i = days_between-le due now feedback_warn_days in (ground (arith, i.0), ground (arith, i.1))
feedback_status-warning_iff due now (some t) r h = (ground arith, ground arith)
