-- ===== src/Time/Epoch.antt =====
-- Time since the epoch: the closed leap-year formula of `ToNanosecondsSinceEpoch` and
-- `ToMicrosecondsSinceEpoch` against a count of days, year by year.
use logic_elements.Base.{ℕ, zero, suc, ◌+◌, ◌*◌, ◌/◌, ◌^◌, ◌<◌, ◌≡◌, ap, arith}
use logic_elements.Time.Calendar.{is_leap_year, days_in_year}
use logic_elements.Time.{
  Time, subsecond_fraction, count_leaps, leap_years, total_days, to_microseconds_since_epoch,
  to_nanoseconds_since_epoch,
}

-- The days of the years from 1970 on, counted one by one.
abbrev pub days_before : ℕ → ℕ
days_before zero = 0
days_before (suc y) = days_before y + days_in_year (1970 + y)

-- Nanoseconds since the epoch, with no bound on their number.
abbrev pub nanoseconds : Time → ℕ
nanoseconds t =
    (((((days_before t.year + t.day) * 24 + t.hour) * 60 + t.minute) * 60) + t.second)
      * subsecond_fraction
    + t.sub_second

count_leaps-suc : (y : ℕ) → 365 + count_leaps (suc y) ≡ count_leaps y + days_in_year (suc y)
unfolding count_leaps days_in_year is_leap_year
count_leaps-suc y = ground arith

count_leaps-days_before :
    (y : ℕ) → y * 365 + count_leaps (1969 + y) ≡ days_before y + count_leaps 1969
unfolding count_leaps days_in_year
count_leaps-days_before zero = omega arith
count_leaps-days_before (suc y) = omega (
  arith,
  count_leaps-suc (1969 + y),
  count_leaps-days_before y,
  ap count_leaps (shift y),
  ap days_in_year (shift y),
)
  where
    shift : (y : ℕ) → suc (1969 + y) ≡ 1970 + y
    shift y = omega arith

pub total_days-days_before : (t : Time) → total_days t ≡ days_before t.year + t.day
unfolding total_days leap_years count_leaps
total_days-days_before t = ground (arith, count_leaps-days_before t.year)

-- Where the nanoseconds since the epoch are fewer than 2 ^ 64, the closed formula for leap years
-- gives the same number as counting the days year by year.
pub to_nanoseconds-eq :
    (t : Time) → nanoseconds t < 2 ^ 64 → to_nanoseconds_since_epoch t ≡ nanoseconds t
unfolding to_nanoseconds_since_epoch
to_nanoseconds-eq t h = omega (arith, total_days-days_before t)

-- Where the nanoseconds since the epoch are fewer than 2 ^ 64, the microseconds since the epoch are
-- their number, counted day by day, divided by 1000.
pub to_microseconds-eq :
    (t : Time) → nanoseconds t < 2 ^ 64 → to_microseconds_since_epoch t ≡ nanoseconds t / 1000
unfolding to_microseconds_since_epoch
to_microseconds-eq t h = omega (arith, total_days-days_before t)
