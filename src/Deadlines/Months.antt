-- ===== src/Deadlines/Months.antt =====
-- What `add_months` does to a date: the month moves, the day stays or becomes the month's last.
use open_whistle.Deadlines.{replace}
use open_whistle.Calendar.Ordinal.{ordinal-month_start}
use open_whistle.Calendar.Ordinal.{index-mod}
use open_whistle.Base.{ap}
use open_whistle.Calendar.Ordinal.{index-div}
use open_whistle.Calendar.Ordinal.{ordinal-lt_of_index}
use native.Mathlib.Decide.{dec_lt}
use open_whistle.Base.{ℕ, ◌+◌, ◌*◌, ◌/◌, ◌%◌, ◌<◌, ◌≤◌, min, ◌≡◌, arith}
use open_whistle.Base.Int.{pos}
use open_whistle.Base.Outcome.{ok}
use open_whistle.Calendar.{Datetime, max_year, days_in_month, IsValid, ordinal}
use open_whistle.Calendar.Ordinal.{month_start, index, days_in_month_bounds}
use open_whistle.Deadlines.{add_months}

-- The months are counted on from the date's, the time of day stays, the day is clamped.
pub record IsShifted (t : Datetime) (i : ℕ) (r : Datetime) : Type 0 where
  pub valid : IsValid r
  pub month_index : index r ≡ i
  pub clamped : r.day ≡ min t.day (days_in_month r.year r.month)
  pub same_time : r.micros ≡ t.micros

pub add_months-forward :
    (t : Datetime) (n : ℕ) (r : Datetime)
    → IsValid t
    → add_months t (pos n) ≡ ok r
    → IsShifted t (index t + n) r
unfolding add_months replace
add_months-forward t n r v h = record {
  valid = ground (arith, days_in_month_bounds r.year r.month);
  month_index = ground arith;
  clamped = ground arith;
  same_time = ground arith;
}

pub add_months-total :
    (t : Datetime) (n : ℕ)
    → IsValid t
    → index t + n < (max_year + 1) * 12
    → (r : Datetime) × (add_months t (pos n) ≡ ok r)
unfolding add_months replace
add_months-total t n v h = (
  record t {
    year = (index t + n) / 12;
    month = (index t + n) % 12 + 1;
    day = min t.day (days_in_month ((index t + n) / 12) ((index t + n) % 12 + 1));
  },
  ground (arith, days_in_month_bounds ((index t + n) / 12) ((index t + n) % 12 + 1)),
)

tie : (i j : ℕ) → ¬ (i < j) → ¬ (j < i) → i ≡ j
tie i j p q = omega arith

-- The months forward keep the order of days: a later date has no earlier anniversary.
pub IsShifted-mono :
    (a b ra rb : Datetime) (n : ℕ)
    → IsValid a
    → IsValid b
    → IsShifted a (index a + n) ra
    → IsShifted b (index b + n) rb
    → ordinal a ≤ ordinal b
    → ordinal ra ≤ ordinal rb
IsShifted-mono a b ra rb n va vb sa sb h = elim (dec_lt (index a) (index b)) [
  | yes p ↦ omega (
    arith,
    ordinal-lt_of_index ra rb sa.valid sb.valid (omega (arith, sa.month_index, sb.month_index)),
  )
  | no p ↦ elim (dec_lt (index b) (index a)) [
    | yes q ↦ absurd (omega (arith, ordinal-lt_of_index b a vb va q))
    | no q ↦
        let same : index ra ≡ index rb = omega (arith, sa.month_index, sb.month_index) in
        let year : ra.year ≡ rb.year =
          omega
            (arith, index-div ra sa.valid, index-div rb sb.valid, ap (λ (i : ℕ). i / 12) same) in
        let month : ra.month ≡ rb.month =
          omega
            (arith, index-mod ra sa.valid, index-mod rb sb.valid, ap (λ (i : ℕ). i % 12) same) in
        let limit : days_in_month ra.year ra.month ≡ days_in_month rb.year rb.month = cc in
        let starts : month_start (index a) ≡ month_start (index b) =
          rw (tie (index a) (index b) p q) in
        let starts' : month_start (index ra) ≡ month_start (index rb) = rw same in
        omega (
          arith,
          ordinal-month_start a va,
          ordinal-month_start b vb,
          ordinal-month_start ra sa.valid,
          ordinal-month_start rb sb.valid,
          sa.clamped,
          sb.clamped,
        )
  ]
]
