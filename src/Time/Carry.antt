-- ===== src/Time/Carry.antt =====
-- `Update` and `operator+` carry: the result is a normal time, and no nanosecond is lost.
use native.Mathlib.Nat.{mod-eq_of_lt, div-add-mod}
use logic_elements.Base.{
  Bool-cases, leb, inl, inr, ℕ, zero, suc, ◌+◌, ◌-◌, ◌*◌, ◌/◌, ◌^◌, ◌≤◌, ◌<◌, ◌≡◌, refl, ap, arith,
  u16, u32,
}
use logic_elements.Time.Calendar.{days_in_year}
use logic_elements.Time.Epoch.{days_before, nanoseconds}
use logic_elements.Time.{Time, subsecond_fraction, carry, roll_years, update}

-- Each field below what the next one counts.
pub record IsNormal (t : Time) : Type 0 where
  pub day_in : t.day < days_in_year (u16 (t.year + 1970))
  pub hour_in : t.hour < 24
  pub minute_in : t.minute < 60
  pub second_in : t.second < 60
  pub sub_second_in : t.sub_second < subsecond_fraction

pub days_in_year_bounds : (y : ℕ) → (365 ≤ days_in_year y) × (days_in_year y ≤ 366)
unfolding days_in_year
days_in_year_bounds y = ground arith

-- The loop ends by its test, with `day` rounds or more.
pub roll_years-lt :
    (fuel year day : ℕ)
    → day ≤ fuel
    → (roll_years fuel year day).1 < days_in_year (u16 ((roll_years fuel year day).0 + 1970))
unfolding roll_years
roll_years-lt zero year day h = omega (arith, days_in_year_bounds (u16 (year + 1970)))
roll_years-lt (suc fuel) year day h = ground (
  arith,
  days_in_year_bounds (u16 (year + 1970)),
  roll_years-lt fuel (u16 (year + 1)) (day - days_in_year (u16 (year + 1970))),
)

-- It moves days to years, and keeps their sum.
pub roll_years-days :
    (fuel year day : ℕ)
    → year * 365 + day < 63000 * 365
    → days_before (roll_years fuel year day).0 + (roll_years fuel year day).1
      ≡ days_before year + day
unfolding roll_years
roll_years-days zero year day h = refl
roll_years-days (suc fuel) year day h = ground (
  arith,
  days_in_year_bounds (1970 + year),
  ap days_in_year (wraps year h),
  ap days_before (next_year year h),
  roll_years-days fuel (u16 (year + 1)) (day - days_in_year (u16 (year + 1970))),
)
  where
    wraps : (y : ℕ) → y * 365 + day < 63000 * 365 → u16 (y + 1970) ≡ 1970 + y
    wraps y h = omega arith

    next_year : (y : ℕ) → y * 365 + day < 63000 * 365 → u16 (y + 1) ≡ suc y
    next_year y h = omega arith

-- Each round takes at least 365 days off for its year.
pub roll_years-le :
    (fuel year day : ℕ)
    → year * 365 + day < 63000 * 365
    → (roll_years fuel year day).0 * 365 + (roll_years fuel year day).1 ≤ year * 365 + day
unfolding roll_years
roll_years-le zero year day h = omega arith
roll_years-le (suc fuel) year day h = ground (
  arith,
  days_in_year_bounds (u16 (year + 1970)),
  roll_years-le fuel (u16 (year + 1)) (day - days_in_year (u16 (year + 1970))),
)

pub roll_years_fits : (fuel year day : ℕ) → year < 2 ^ 16 → (roll_years fuel year day).0 < 2 ^ 16
unfolding roll_years
roll_years_fits zero year day h = h
roll_years_fits (suc fuel) year day h =
    ground (arith, roll_years_fits fuel (u16 (year + 1)) (day - days_in_year (u16 (year + 1970))))

-- A carry that does not wrap: it keeps the sum, and leaves the low part below the base.
pub record Carries (base high low : ℕ) (r : ℕ × ℕ) : Type 0 where
  pub below : r.1 < base
  pub sum : r.0 * base + r.1 ≡ high * base + low
  pub bound : r.0 ≤ high + low / base

pub carry-lt : (base modulus high low : ℕ) → 0 < base → (carry base modulus high low).1 < base
unfolding carry
carry-lt base modulus high low h = ground arith

pub carry-Carries :
    (base modulus high low : ℕ)
    → 0 < base
    → high + low / base < modulus
    → Carries base high low (carry base modulus high low)
unfolding carry
carry-Carries base modulus high low p h = elim (Bool-cases (leb base low)) [
  | inl e ↦
      rw (e, mod-eq_of_lt h)
        (record {
          below = omega arith;
          sum = omega (arith, div-add-mod low base);
          bound = omega arith;
        })
  | inr e ↦ rw e (record { below = ground arith; sum = refl; bound = omega arith })
]

-- Whatever the fields of the time and the amount added, Update leaves every field in its range, the
-- day below the days of its year.
pub update-IsNormal : (t : Time) (n : ℕ) → IsNormal (update t n)
unfolding update
update-IsNormal t n = record {
  day_in = roll_years-lt _ t.year _ (omega arith);
  hour_in = omega (arith, carry-lt 24 (2 ^ 16) t.day _ (omega arith));
  minute_in = omega (arith, carry-lt 60 (2 ^ 32) t.hour _ (omega arith));
  second_in = omega (arith, carry-lt 60 (2 ^ 32) t.minute _ (omega arith));
  sub_second_in = omega (arith, carry-lt subsecond_fraction (2 ^ 32) t.second _ (omega arith));
}

-- A time that `Update` can carry with no field wrapping: for about 172 years' worth of days.
pub record InRange (t : Time) : Type 0 where
  pub hour_fits : t.hour < 2 ^ 8
  pub minute_fits : t.minute < 2 ^ 8
  pub second_fits : t.second < 2 ^ 8
  pub day_fits : t.day < 62000
  pub days_fit : t.year * 365 + t.day < 62000 * 365

-- Update adds its argument to the nanoseconds since the epoch, if hour, minute and second fit a
-- byte, the day field is below 62000, the year's days (365 a year) and the day are together below
-- 62000 * 365, and the subsecond field plus the argument is below 2 ^ 32.
pub nanoseconds-update :
    (t : Time) (n : ℕ)
    → InRange t
    → t.sub_second + n < 2 ^ 32
    → nanoseconds (update t n) ≡ nanoseconds t + n
unfolding update
nanoseconds-update t n v h =
    let x = u32 (t.sub_second + n) in
    let s = carry subsecond_fraction (2 ^ 32) t.second x in
    let m = carry 60 (2 ^ 32) t.minute s.0 in
    let k = carry 60 (2 ^ 32) t.hour m.0 in
    let d = carry 24 (2 ^ 16) t.day k.0 in
    let cs = carry-Carries subsecond_fraction (2 ^ 32) t.second x (omega arith) (omega arith) in
    let cm = carry-Carries 60 (2 ^ 32) t.minute s.0 (omega arith) (omega arith) in
    let ck = carry-Carries 60 (2 ^ 32) t.hour m.0 (omega arith) (omega arith) in
    let cd = carry-Carries 24 (2 ^ 16) t.day k.0 (omega arith) (omega arith) in
    omega (arith, cs, cm, ck, cd, roll_years-days d.0 t.year d.0 (omega arith))
