-- ===== src/Time/MonthDay.antt =====
-- `ConvertDayOfYearToMonthDay` finds a month and a day of that month, and the months before it
-- make up the rest.
use native.Mathlib.Numerals.{add-one}
use logic_elements.Base.{ap, ℕ, zero, suc, ◌+◌, ◌-◌, ◌<◌, ◌≡◌, arith}
use logic_elements.Time.Calendar.{days_in_year, days_in_month, find_month, month_day}

-- The days of the months before a month.
abbrev pub month_start : ℕ → ℕ → ℕ
month_start y zero = 0
month_start y (suc m) = month_start y m + days_in_month y m

pub twelve_months : (y : ℕ) → month_start y 12 ≡ days_in_year y
unfolding days_in_month days_in_year
twelve_months y = ground arith

-- The month is one of the twelve, the day is in it, and together they are the day of the year.
pub record IsDayOf (y n : ℕ) (r : ℕ × ℕ) : Type 0 where
  pub month_in : r.0 < 12
  pub day_in : r.1 < days_in_month y r.0
  pub sum : month_start y r.0 + r.1 ≡ n

month_start-add_one : (y m : ℕ) → month_start y (m + 1) ≡ month_start y m + days_in_month y m
month_start-add_one y m = rw (add-one m)

find_month-IsDayOf :
    (y rounds m n : ℕ)
    → m + rounds ≡ 12
    → month_start y m + n < days_in_year y
    → IsDayOf y (month_start y m + n) (find_month rounds y m n)
unfolding find_month
find_month-IsDayOf y zero m n e h =
    absurd (omega (arith, twelve_months y, ap (month_start y) (at_end m e)))
  where
    at_end : (m : ℕ) → m + 0 ≡ 12 → m ≡ 12
    at_end m e = omega arith
find_month-IsDayOf y (suc rounds) m n e h =
    ground
      (arith, month_start-add_one y m, find_month-IsDayOf y rounds (m + 1) (n - days_in_month y m))

-- For a day of the year below the number of days of the year, the conversion gives one of the
-- twelve months and a day within that month, and the days of the months before it add up with that
-- day to the day of the year.
pub month_day-IsDayOf : (y n : ℕ) → n < days_in_year y → IsDayOf y n (month_day y n)
unfolding month_day
month_day-IsDayOf y n h = ground (arith, find_month-IsDayOf y 12 0 n)
