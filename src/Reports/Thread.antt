-- ===== src/Reports/Thread.antt =====
-- The thread of a report: its order, and what its times tell of the whistleblower.
use open_whistle.Reports.{
  new_message, Vault, day_floor, latest_sent_at, next_sent_at, add_whistleblower_message,
  add_admin_message, acknowledge_report, update_report_status, assign_report, add_note,
  request_deletion, cancel_deletion_request,
}
use open_whistle.Base.{
  ◌+◌, ◌*◌, ◌<◌, String, ◌≡◌, inl, inr, true, false, none, some, List, [], ◌∷◌, ◌++◌, arith, ltb,
  if◌then◌else◌, ltb→lt, Bool-cases, Option-cases, All, All-append,
}
use open_whistle.Base.Outcome.{ok, >>=-eq-ok}
use open_whistle.Calendar.{
  Datetime, day_micros, stamp, ordinal, ltb_time, leb_time, add_micro, next_day, IsValid,
}
use open_whistle.Calendar.Ordinal.{ordinal-next_day, next_day-IsValid}
use open_whistle.Models.{Report, Message, Sender}
use open_whistle.Reports.Lifecycle.{
  Step, Reach, acknowledge, set_status, reply, write, assign, note, request, cancel, here, next,
}

-- Every message is later than those before it, at a time of the calendar.
abbrev pub Before : Datetime → Message → Type 0
Before t m = stamp m.sent_at < stamp t

abbrev pub IsOrdered : List Message → Type 0
IsOrdered [] = Unit
IsOrdered (m ∷ ms) = All (λ later. Before later.sent_at m) ms × IsValid m.sent_at × IsOrdered ms

IsOrdered-append :
    (ms : List Message) (new : Message)
    → IsOrdered ms
    → All (Before new.sent_at) ms
    → IsValid new.sent_at
    → IsOrdered (ms ++ new ∷ [])
IsOrdered-append [] new o b v = (tt, v, tt)
IsOrdered-append (m ∷ ms) new o b v = (
  All-append (λ later. Before later.sent_at m) ms (new ∷ []) o.0 (b.0, tt),
  o.1,
  IsOrdered-append ms new o.2 b.1 v,
)

midnight :
    (t n : Datetime)
    → IsValid t
    → ordinal n ≡ ordinal t + 1
    → ordinal t * day_micros + t.micros < ordinal (record n { micros = 0 }) * day_micros + 0
unfolding ordinal
midnight t n v e = omega arith

within_day :
    (t r : Datetime)
    → IsValid t
    → ltb (t.micros + 1) day_micros ≡ true
    → add_micro t ≡ ok r
    → (stamp t < stamp r) × IsValid r
unfolding add_micro stamp ordinal
within_day t r v e h =
    let same : r ≡ record t { micros = t.micros + 1 } = ground arith in
    rw same (
      omega arith,
      record {
        year_pos = v.year_pos;
        month_pos = v.month_pos;
        month_le = v.month_le;
        day_pos = v.day_pos;
        day_le = v.day_le;
        micros_lt = ltb→lt (t.micros + 1) day_micros e;
      },
    )

past_midnight :
    (t r : Datetime)
    → IsValid t
    → ltb (t.micros + 1) day_micros ≡ false
    → add_micro t ≡ ok r
    → (stamp t < stamp r) × IsValid r
unfolding add_micro stamp
past_midnight t r v e h =
    let n = next_day t in
    let same : r ≡ record n { micros = 0 } = ground arith in
    let day = ordinal-next_day t v in
    let v' = next_day-IsValid t v in
    rw same (
      midnight t n v day,
      record {
        year_pos = v'.year_pos;
        month_pos = v'.month_pos;
        month_le = v'.month_le;
        day_pos = v'.day_pos;
        day_le = v'.day_le;
        micros_lt = omega arith;
      },
    )

-- A microsecond later is later, also past midnight.
add_micro-lt : (t r : Datetime) → IsValid t → add_micro t ≡ ok r → (stamp t < stamp r) × IsValid r
add_micro-lt t r v h = elim (Bool-cases (ltb (t.micros + 1) day_micros)) [
  | inl e ↦ within_day t r v e h
  | inr e ↦ past_midnight t r v e h
]

none_latest : (ms : List Message) (t : Datetime) → latest_sent_at ms ≡ none → All (Before t) ms
unfolding latest_sent_at
none_latest [] t h = tt
none_latest (m ∷ ms) t h = ground arith

latest_is_last :
    (ms : List Message) (l t : Datetime)
    → latest_sent_at ms ≡ some l
    → stamp l < stamp t
    → All (Before t) ms
unfolding latest_sent_at
latest_is_last [] l t h b = tt
latest_is_last (m ∷ ms) l t h b = elim (Option-cases (latest_sent_at ms)) [
  | inl e ↦ (ground arith, none_latest ms t e)
  | inr (k, e) ↦ (ground arith, latest_is_last ms k t e (ground arith))
]

IsValid-max :
    (s k l : Datetime) → IsValid s → IsValid k → (if ltb_time k s then s else k) ≡ l → IsValid l
IsValid-max s k l vs vk h = elim (Bool-cases (ltb_time k s)) [
  | inl e ↦ (let same : s ≡ l = ground arith in rw (← same) vs)
  | inr e ↦ (let same : k ≡ l = ground arith in rw (← same) vk)
]

latest-IsValid :
    (ms : List Message) (l : Datetime) → IsOrdered ms → latest_sent_at ms ≡ some l → IsValid l
unfolding latest_sent_at
latest-IsValid [] l o h = cc
latest-IsValid (m ∷ ms) l o h = elim (Option-cases (latest_sent_at ms)) [
  | inl e ↦ (let same : m.sent_at ≡ l = ground arith in rw (← same) o.1)
  | inr (k, e) ↦ IsValid-max m.sent_at k l o.1 (latest-IsValid ms k o.2 e) (ground arith)
]

next_sent_at-last :
    (r : Report) (earliest t : Datetime)
    → IsOrdered r.messages
    → IsValid earliest
    → next_sent_at r earliest ≡ ok t
    → All (Before t) r.messages × IsValid t
unfolding next_sent_at
next_sent_at-last r e t o v h = elim (Option-cases (latest_sent_at r.messages)) [
  | inl n ↦ (none_latest r.messages t n, (let same : e ≡ t = ground arith in rw (← same) v))
  | inr (l, s) ↦ elim (Bool-cases (leb_time e l)) [
    | inl late ↦
        let (after, valid) = add_micro-lt l t (latest-IsValid r.messages l o s) (ground arith) in
        (latest_is_last r.messages l t s after, valid)
    | inr early ↦
        let same : e ≡ t = ground arith in
        (latest_is_last r.messages l t s (rw (← same) (ground arith)), rw (← same) v)
  ]
]

day_floor-IsValid : (now : Datetime) → IsValid now → IsValid (day_floor now)
unfolding day_floor
day_floor-IsValid now vn = ground arith

module _ (v : Vault) where
  -- A stored reply stands behind the thread, at the time that `_next_sent_at` gave.
  pub add_admin_message-ok :
      (now : Datetime) (content : String) (r r' : Report)
      → add_admin_message v now r content ≡ ok r'
      → (t : Datetime) × (next_sent_at r now ≡ ok t)
        × (r'.messages ≡ r.messages ++ new_message v r Sender.office content t ∷ [])
  unfolding add_admin_message
  add_admin_message-ok now content r r' h =
      let (t, sent, made) = >>=-eq-ok (next_sent_at r now) _ h in (t, sent, ground arith)

  pub add_whistleblower_message-ok :
      (now : Datetime) (content : String) (r r' : Report)
      → add_whistleblower_message v now r content ≡ ok r'
      → (t : Datetime) × (next_sent_at r (day_floor now) ≡ ok t)
        × (r'.messages ≡ r.messages ++ new_message v r Sender.whistleblower content t ∷ [])
  unfolding add_whistleblower_message
  add_whistleblower_message-ok now content r r' h =
      let (t, sent, made) = >>=-eq-ok (next_sent_at r (day_floor now)) _ h in
      (t, sent, ground arith)

  grown :
      (r r' : Report) (sender : Sender) (content : String) (e t : Datetime)
      → IsValid e
      → IsOrdered r.messages
      → next_sent_at r e ≡ ok t
      → r'.messages ≡ r.messages ++ new_message v r sender content t ∷ []
      → IsOrdered r'.messages
  grown r r' sender content e t ve o sent made =
      let (before, valid) = next_sent_at-last r e t o ve sent in
      rw made (IsOrdered-append r.messages (new_message v r sender content t) o before valid)

  kept : (r r' : Report) → r'.messages ≡ r.messages → IsOrdered r.messages → IsOrdered r'.messages
  kept r r' e o = rw e o

  Step-IsOrdered : (r r' : Report) → Step v r r' → IsOrdered r.messages → IsOrdered r'.messages
  Step-IsOrdered r r' (reply now content vn e) o =
      let (t, sent, made) = add_admin_message-ok now content r r' e in
      grown r r' Sender.office content now t vn o sent made
  Step-IsOrdered r r' (write now content vn e) o =
      let (t, sent, made) = add_whistleblower_message-ok now content r r' e in
      grown r r' Sender.whistleblower content (day_floor now) t (day_floor-IsValid now vn) o sent
        made
  Step-IsOrdered r r' (acknowledge now e) o =
      kept r r' (unfold acknowledge_report in ground arith) o
  Step-IsOrdered r r' (set_status now new _ e) o =
      kept r r' (unfold update_report_status in ground arith) o
  Step-IsOrdered r r' (assign admin e) o = kept r r' (unfold assign_report in ground arith) o
  Step-IsOrdered r r' (note author content e) o = kept r r' (unfold add_note in ground arith) o
  Step-IsOrdered r r' (request requester e) o =
      kept r r' (unfold request_deletion in ground arith) o
  Step-IsOrdered r r' (cancel e) o = kept r r' (unfold cancel_deletion_request in ground arith) o

  -- Through any operations at valid times, a thread whose times are strictly increasing and valid
  -- stays so.
  pub Reach-IsOrdered :
      {r r' : Report} → IsOrdered r.messages → Reach v r r' → IsOrdered r'.messages
  Reach-IsOrdered o here = o
  Reach-IsOrdered o (next {s} {t} path step) = Step-IsOrdered s t step (Reach-IsOrdered o path)

  -- A whistleblower's message written at any two moments of one day has the same result: the time
  -- of day is not kept.
  pub add_whistleblower_message-day :
      (now now' : Datetime) (r : Report) (content : String)
      → now.year ≡ now'.year
      → now.month ≡ now'.month
      → now.day ≡ now'.day
      → add_whistleblower_message v now r content ≡ add_whistleblower_message v now' r content
  unfolding add_whistleblower_message day_floor
  add_whistleblower_message-day now now' r content y m d = rw (y, m, d)
