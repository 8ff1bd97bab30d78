-- ===== src/Deadlines/Acknowledgement.antt =====
-- The acknowledgement deadline of app/services/deadlines.py, in days.
use open_whistle.Base.{
  ℕ, ◌+◌, ◌-◌, ◌*◌, ◌≤◌, ◌<◌, ◌≡◌, refl, ap, ◌∙◌, ◌↔◌, Bool, true, none, some, arith,
}
use open_whistle.Base.Outcome.{ok, >>=-eq-ok}
use open_whistle.Calendar.{
  Datetime, day_micros, max_year, ordinal, stamp, leb_time, add_days, advance, IsValid,
}
use open_whistle.Calendar.Ordinal.{index, advance-IsValid, ordinal-advance, index-advance-le}
use open_whistle.Deadlines.{
  ack_days, end_of_day, ack_due, ack_on_time, ack_status, overdue, Deadline,
}

-- An instant is on or before the last moment of a day exactly when its day is on or before it.
stamp-le-end_of_day :
    (a d : Datetime) → IsValid a → (stamp a ≤ stamp (end_of_day d)) ↔ (ordinal a ≤ ordinal d)
unfolding stamp end_of_day ordinal
stamp-le-end_of_day a d v = (ground arith, ground arith)

pub add_days-ok :
    (t r : Datetime) (n : ℕ)
    → IsValid t
    → add_days t n ≡ ok r
    → IsValid r × (ordinal r ≡ ordinal t + n)
unfolding add_days
add_days-ok t r n v h =
    let e : r ≡ advance n t = ground arith in rw e (advance-IsValid n t v, ordinal-advance n t v)

pub add_days-total :
    (t : Datetime) (n : ℕ)
    → IsValid t
    → n ≤ 27
    → index t + 1 < (max_year + 1) * 12
    → add_days t n ≡ ok (advance n t)
unfolding add_days
add_days-total t n v h l =
    ground (arith, (advance-IsValid n t v).year_pos, index-advance-le n t v h)

pub ordinal-end_of_day : (t : Datetime) → ordinal (end_of_day t) ≡ ordinal t
unfolding ordinal end_of_day
ordinal-end_of_day t = refl

-- For a valid receipt with a month of the calendar left, the acknowledgement is due at the last
-- microsecond of the seventh day after it.
pub ack_due_total :
    (t : Datetime)
    → IsValid t
    → index t + 1 < (max_year + 1) * 12
    → (d : Datetime) × (ack_due t ≡ ok d)
      × (ordinal d ≡ ordinal t + ack_days)
      × (d.micros ≡ day_micros - 1)
unfolding ack_due
ack_due_total t v l = (
  end_of_day (advance ack_days t),
  rw (add_days-total t ack_days v (omega arith) l),
  ordinal-end_of_day (advance ack_days t) ∙ ordinal-advance ack_days t v,
  unfold end_of_day in refl,
)

ack_due-ok :
    (t d : Datetime)
    → IsValid t
    → ack_due t ≡ ok d
    → (x : Datetime) × (IsValid x) × (ordinal x ≡ ordinal t + ack_days) × (d ≡ end_of_day x)
unfolding ack_due
ack_due-ok t d v h =
    let (x, added, made) = >>=-eq-ok (add_days t ack_days) (λ due. ok (end_of_day due)) h in
    let (valid, days) = add_days-ok t x ack_days v added in (x, valid, days, cc)

-- For valid dates and a deadline that exists, an acknowledgement is on time exactly when its day
-- is at most the seventh after the receipt's.
pub ack_on_time_iff :
    (submitted ack : Datetime) (b : Bool)
    → IsValid submitted
    → IsValid ack
    → ack_on_time submitted (some ack) ≡ ok b
    → (b ≡ true) ↔ (ordinal ack ≤ ordinal submitted + ack_days)
unfolding ack_on_time
ack_on_time_iff s a b vs va h =
    let (d, due, made) = >>=-eq-ok (ack_due s) (λ d. ok (leb_time a d)) h in
    let (x, valid, days, e) = ack_due-ok s d vs due in
    let i = stamp-le-end_of_day a x va in
    let same : stamp d ≡ stamp (end_of_day x) = ap stamp e in
    (ground (arith, i.0), ground (arith, i.1))

-- For valid dates and a deadline that exists, a case without an acknowledgement is overdue
-- exactly when the seventh day after the receipt has passed.
pub ack_status-overdue_iff :
    (submitted now : Datetime) (r : Deadline)
    → IsValid submitted
    → IsValid now
    → ack_status submitted none now ≡ ok r
    → (r.state ≡ overdue) ↔ (ordinal submitted + ack_days < ordinal now)
unfolding ack_status
ack_status-overdue_iff s now r vs vn h =
    let (d, due, made) = >>=-eq-ok (ack_due s) _ h in
    let (x, valid, days, e) = ack_due-ok s d vs due in
    let i = stamp-le-end_of_day now x vn in
    let same : stamp d ≡ stamp (end_of_day x) = ap stamp e in
    (ground (arith, i.1), ground (arith, i.0))
