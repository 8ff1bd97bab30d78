-- ===== src/Calendar/Ordinal.antt =====
-- Day numbers: a step of the calendar is a step of one, so instants are ordered as their fields are.
use open_whistle.Base.{
  ℕ, zero, suc, ◌+◌, ◌-◌, ◌*◌, ◌/◌, ◌%◌, ◌≤◌, ◌<◌, ◌≡◌, refl, sym, ap, ◌∙◌, ◌⊎◌, inl, inr, arith,
  if◌then◌else◌,
}
use native.Mathlib.Decide.{dec_lt}
use native.Mathlib.Nat.{add-zero}
use open_whistle.Calendar.{
  Datetime, is_leap, days_in_month, days_before_year, days_before_month, ordinal, next_day,
  prev_day, advance, IsValid,
}

pub days_in_month_bounds : (y m : ℕ) → (28 ≤ days_in_month y m) × (days_in_month y m ≤ 31)
unfolding days_in_month
days_in_month_bounds y m = ground arith

days_in_year : ℕ → ℕ
unfolding is_leap
days_in_year y = if is_leap y then 366 else 365

days_before_year-suc :
    (y : ℕ) → 1 ≤ y → days_before_year (y + 1) ≡ days_before_year y + days_in_year y
unfolding days_before_year days_in_year
days_before_year-suc y h = ground arith

days_before_month_year : (y : ℕ) → days_before_month y 12 ≡ days_in_year y
unfolding days_before_month days_in_month days_in_year
days_before_month_year y = ground arith

-- The day number of the last day before the month, and the months counted through the years.
pub month_start : ℕ → ℕ
month_start i = days_before_year (i / 12) + days_before_month (i / 12) (i % 12)

abbrev pub index : Datetime → ℕ
index t = t.year * 12 + (t.month - 1)

pub index-div : (t : Datetime) → IsValid t → index t / 12 ≡ t.year
index-div t v = omega arith

pub index-mod : (t : Datetime) → IsValid t → index t % 12 + 1 ≡ t.month
index-mod t v = omega arith

pub ordinal-month_start : (t : Datetime) → IsValid t → ordinal t ≡ month_start (index t) + t.day
unfolding ordinal month_start
ordinal-month_start t v =
    let e : index t % 12 ≡ t.month - 1 = omega (arith, index-mod t v) in rw (index-div t v, e)

abbrev pub month_days : ℕ → ℕ
month_days i = days_in_month (i / 12) (suc (i % 12))

pub month_start-suc : (i : ℕ) → 12 ≤ i → month_start (i + 1) ≡ month_start i + month_days i
unfolding month_start
month_start-suc i h = elim (dec_lt (i % 12) 11) [
  | yes p ↦
      let same : (i + 1) / 12 ≡ i / 12 = omega arith in
      let later : (i + 1) % 12 ≡ suc (i % 12) = omega arith in
      rw (same, later) (unfold days_before_month in omega arith)
  | no p ↦
      let year : (i + 1) / 12 ≡ i / 12 + 1 = omega arith in
      let first : (i + 1) % 12 ≡ 0 = omega arith in
      let last : i % 12 ≡ 11 = omega arith in
      rw (year, first, last)
        (unfold days_before_month in
          omega (arith, days_before_year-suc (i / 12), days_before_month_year (i / 12)))
]

month_start_mono : (k i : ℕ) → 12 ≤ i → month_start i + month_days i ≤ month_start (i + 1 + k)
month_start_mono zero i h = rw add-zero (omega (arith, month_start-suc i h))
month_start_mono (suc k) i h =
    let e : i + 1 + suc k ≡ i + 1 + k + 1 = omega arith in
    rw e (omega (arith, month_start_mono k i h, month_start-suc (i + 1 + k)))

-- The days of an earlier month come before every day of a later one.
pub month_start-lt : (i j : ℕ) → 12 ≤ i → i < j → month_start i + month_days i ≤ month_start j
month_start-lt i j h l =
    let e : j ≡ i + 1 + (j - i - 1) = omega arith in rw e (month_start_mono (j - i - 1) i h)

pub index-ge : (t : Datetime) → IsValid t → 12 ≤ index t
index-ge t v = omega arith

pub day-le-month_days : (t : Datetime) → IsValid t → t.day ≤ month_days (index t)
day-le-month_days t v =
    let e : suc (index t % 12) ≡ t.month = omega (arith, index-mod t v) in
    rw (index-div t v, e) v.day_le

-- Datetimes are ordered by their month first.
pub ordinal-lt_of_index :
    (a b : Datetime) → IsValid a → IsValid b → index a < index b → ordinal a < ordinal b
ordinal-lt_of_index a b va vb h =
    rw (ordinal-month_start a va, ordinal-month_start b vb)
      (omega (
        arith,
        day-le-month_days a va,
        vb.day_pos,
        month_start-lt (index a) (index b) (index-ge a va) h,
      ))

pub next_day-IsValid : (t : Datetime) → IsValid t → IsValid (next_day t)
unfolding next_day
next_day-IsValid t v =
    ground (arith, days_in_month_bounds t.year (t.month + 1), days_in_month_bounds (t.year + 1) 1)

-- What a step of the calendar does to the month and to the day.
next_day-parts :
    (t : Datetime)
    → IsValid t
    → ((index (next_day t) ≡ index t) × ((next_day t).day ≡ t.day + 1))
      ⊎ ((index (next_day t) ≡ index t + 1)
          × ((next_day t).day ≡ 1)
          × (t.day ≡ days_in_month t.year t.month))
unfolding next_day
next_day-parts t v = ground arith

month_days-index : (t : Datetime) → IsValid t → month_days (index t) ≡ days_in_month t.year t.month
month_days-index t v =
    let e : suc (index t % 12) ≡ t.month = omega (arith, index-mod t v) in rw (index-div t v, e)

pub ordinal-next_day : (t : Datetime) → IsValid t → ordinal (next_day t) ≡ ordinal t + 1
ordinal-next_day t v =
    rw (ordinal-month_start t v, ordinal-month_start (next_day t) (next_day-IsValid t v))
      (elim (next_day-parts t v) [
        | inl p ↦ rw (p.0, p.1) (omega arith)
        | inr p ↦
            rw (p.0, p.1, month_start-suc (index t) (index-ge t v))
              (omega (arith, month_days-index t v, p.2))
      ])

pub advance-IsValid : (n : ℕ) (t : Datetime) → IsValid t → IsValid (advance n t)
unfolding advance
advance-IsValid zero t v = v
advance-IsValid (suc n) t v = advance-IsValid n (next_day t) (next_day-IsValid t v)

pub ordinal-advance : (n : ℕ) (t : Datetime) → IsValid t → ordinal (advance n t) ≡ ordinal t + n
unfolding advance
ordinal-advance zero t v = omega arith
ordinal-advance (suc n) t v =
    omega (arith, ordinal-advance n (next_day t) (next_day-IsValid t v), ordinal-next_day t v)

pub micros-advance : (n : ℕ) (t : Datetime) → (advance n t).micros ≡ t.micros
unfolding advance next_day
micros-advance zero t = refl
micros-advance (suc n) t = ground (arith, micros-advance n (next_day t))

year-next_day-le : (t : Datetime) → (t.year ≤ (next_day t).year) × ((next_day t).year ≤ t.year + 1)
unfolding next_day
year-next_day-le t = ground arith

-- Going a day back and a day on meets the same day.
pub prev_day-IsValid : (t : Datetime) → IsValid t → 2 ≤ t.year → IsValid (prev_day t)
unfolding prev_day days_in_month
prev_day-IsValid t v h = ground arith

pub next_day-prev_day : (t : Datetime) → IsValid t → 2 ≤ t.year → next_day (prev_day t) ≡ t
unfolding prev_day next_day days_in_month
next_day-prev_day t v h = ground arith

pub ordinal-prev_day :
    (t : Datetime) → IsValid t → 2 ≤ t.year → ordinal (prev_day t) + 1 ≡ ordinal t
ordinal-prev_day t v h =
    sym (ordinal-next_day (prev_day t) (prev_day-IsValid t v h))
    ∙ ap ordinal (next_day-prev_day t v h)

-- Fewer days than the shortest month has lead into the next month at most.
pub index-advance-le :
    (n : ℕ) (t : Datetime) → IsValid t → n ≤ 27 → index (advance n t) ≤ index t + 1
index-advance-le n t v h = elim (dec_lt (index t + 1) (index (advance n t))) [
  | yes p ↦
      let i = index t in
      let r = advance n t in
      absurd (
        omega (
          arith,
          month_start-lt (i + 1) (index r) (omega (arith, index-ge t v)) p,
          month_start-suc i (index-ge t v),
          ordinal-month_start t v,
          ordinal-month_start r (advance-IsValid n t v),
          (advance-IsValid n t v).day_pos,
          ordinal-advance n t v,
          day-le-month_days t v,
          days_in_month_bounds ((i + 1) / 12) (suc ((i + 1) % 12)),
        ))
  | no p ↦ omega arith
]
