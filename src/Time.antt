-- ===== src/Time.antt =====
-- src/LogicElements/src/Core/le_Time.cpp and include/Core/le_Time.hpp: the calendar clock.
-- `year` counts from 1970 and `day` from 0 within the year; `sub_second` is in nanoseconds.
pub mod Calendar
pub mod Epoch
pub mod Carry
pub mod Sum
pub mod Order
pub mod MonthDay
use logic_elements.Base.{
  ℕ, zero, suc, ◌+◌, ◌-◌, ◌*◌, ◌/◌, ◌%◌, ◌^◌, Bool, leb, ltb, if◌then◌else◌, u8, u16, u32, u64,
}
use logic_elements.Base.Int.{ℤ, pos, ◌-ℤ◌, leb_ℤ, to_i64, to_i32}
use Calendar.{days_in_year}

-- The fields, and the width of each as an invariant (`Fits`).
pub record Time : Type 0 where
  pub year : ℕ
  pub day : ℕ
  pub hour : ℕ
  pub minute : ℕ
  pub second : ℕ
  pub sub_second : ℕ

-- SUBSECOND_FRACTION
abbrev pub subsecond_fraction : ℕ
subsecond_fraction = 1_000_000_000

-- `while (day >= daysInYear) { year++; day -= daysInYear; daysInYear = ... }`. The fuel
-- counts rounds, each of which takes at least 365 off `day`.
unfoldable pub roll_years : ℕ → ℕ → ℕ → ℕ × ℕ
roll_years zero year day = (year, day)
roll_years (suc fuel) year day =
    let rest = roll_years fuel (u16 (year + 1)) (day - days_in_year (u16 (year + 1970))) in
    if leb (days_in_year (u16 (year + 1970))) day then rest else (year, day)

-- One carry of the clock: `if (low >= base) { high += low / base; low %= base; }`, the sum kept
-- modulo `modulus`, by the width of `high`.
unfoldable pub carry : ℕ → ℕ → ℕ → ℕ → ℕ × ℕ
carry base modulus high low =
    if leb base low then ((high + low / base) % modulus, low % base) else (high, low)

-- `Time::Update`. The locals for hours, minutes and seconds are `uint32_t`, those for the day and
-- the year `uint16_t`.
unfoldable pub update : Time → ℕ → Time
update t sub_seconds =
    let (second, sub_second) =
      carry subsecond_fraction (2 ^ 32) t.second (u32 (t.sub_second + sub_seconds)) in
    let (minute, second') = carry 60 (2 ^ 32) t.minute second in
    let (hour, minute') = carry 60 (2 ^ 32) t.hour minute in
    let (day, hour') = carry 24 (2 ^ 16) t.day hour in
    let (year, day') = roll_years day t.year day in
    record {
      year = year;
      day = day';
      hour = u8 hour';
      minute = u8 minute';
      second = u8 second';
      sub_second = sub_second;
    }

-- `Time::Time`: the fields, carried once. `subSecondFraction` is ignored by the code.
unfoldable pub time : ℕ → ℕ → ℕ → ℕ → ℕ → ℕ → Time
time sub_second second minute hour day year =
    update
      (record {
        year = year;
        day = day;
        hour = hour;
        minute = minute;
        second = second;
        sub_second = sub_second;
      })
      0

-- The default constructor.
pub epoch : Time
epoch = time 0 0 0 0 0 0

-- The lambda `countLeaps`.
pub count_leaps : ℕ → ℕ
count_leaps y = y / 4 - y / 100 + y / 400

pub leap_years : Time → ℕ
leap_years t = if ltb 0 t.year then count_leaps (1970 + t.year - 1) - count_leaps (1970 - 1) else 0

pub total_days : Time → ℕ
total_days t = t.year * 365 + leap_years t + t.day

-- `Time::ToMicrosecondsSinceEpoch`. The sums are those of `uint64_t`, wrapped once at the end.
pub to_microseconds_since_epoch : Time → ℕ
to_microseconds_since_epoch t = u64 (
    total_days t * 86400 * 1_000_000
    + t.hour * 3600 * 1_000_000
    + t.minute * 60 * 1_000_000
    + t.second * 1_000_000
    + t.sub_second / (subsecond_fraction / 1_000_000))

-- `Time::ToNanosecondsSinceEpoch`.
pub to_nanoseconds_since_epoch : Time → ℕ
to_nanoseconds_since_epoch t = u64 (
    total_days t * 86400 * 1_000_000_000
    + t.hour * 3600 * 1_000_000_000
    + t.minute * 60 * 1_000_000_000
    + t.second * 1_000_000_000
    + t.sub_second)

-- `Time::operator-`, in microseconds.

pub subtract : Time → Time → ℤ
subtract t other =
    to_i64 (to_microseconds_since_epoch t) -ℤ to_i64 (to_microseconds_since_epoch other)

-- `Time::operator+`. Here the sums are kept by the width of the fields.

unfoldable pub add : Time → Time → Time
add t other =
    let (second, sub_second) =
      carry subsecond_fraction (2 ^ 8) t.second (u32 (t.sub_second + other.sub_second)) in
    let (minute, second') = carry 60 (2 ^ 8) t.minute (u8 (second + other.second)) in
    let (hour, minute') = carry 60 (2 ^ 8) t.hour (u8 (minute + other.minute)) in
    let (day, hour') = carry 24 (2 ^ 16) t.day (u8 (hour + other.hour)) in
    let (year, day') = roll_years (u16 (day + other.day)) t.year (u16 (day + other.day)) in
    record {
      year = u16 (year + other.year);
      day = day';
      hour = hour';
      minute = minute';
      second = second';
      sub_second = sub_second;
    }

-- `Time::HasElapsed`.
pub has_elapsed : Time → Time → Bool
has_elapsed t other = leb_ℤ (pos 0) (subtract t other)

-- `Time::Align`: the new time, and the drift.
pub align : Time → ℕ → ℕ → ℕ → ℕ → ℕ → ℕ → Time × ℤ
align t sub_second second minute hour day year = (
  record {
    year = year;
    day = day;
    hour = hour;
    minute = minute;
    second = second;
    sub_second = sub_second;
  },
  to_i32 (subtract (time sub_second second minute hour day year) t),
)
