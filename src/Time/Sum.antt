-- ===== src/Time/Sum.antt =====
-- `operator+` with a length of time on the right, which is how the timers use it.
use native.Mathlib.Nat.{le_refl}
use logic_elements.Base.{ℕ, ◌+◌, ◌*◌, ◌^◌, ◌<◌, ◌≡◌, ap, arith, u8, u16, u32}
use logic_elements.Time.Calendar.{days_in_year}
use logic_elements.Time.Epoch.{days_before, nanoseconds}
use logic_elements.Time.{Time, subsecond_fraction, carry, roll_years, add}
use logic_elements.Time.Carry.{
  IsNormal, days_in_year_bounds, carry-lt, carry-Carries, roll_years-lt, roll_years-days,
  roll_years-le, roll_years_fits,
}

-- A length of time: no years, and each field below what the next one counts.
pub record IsLength (d : Time) : Type 0 where
  pub no_years : d.year ≡ 0
  pub day_in : d.day < 365
  pub hour_in : d.hour < 24
  pub minute_in : d.minute < 60
  pub second_in : d.second < 60
  pub sub_second_in : d.sub_second < subsecond_fraction

same_year : (y z : ℕ) → z ≡ 0 → y < 2 ^ 16 → u16 (y + z) ≡ y
same_year y z e h = omega arith

-- The days that `operator+` hands to its loop.
abbrev add_days : Time → Time → ℕ
add_days t d =
    let s = carry subsecond_fraction (2 ^ 8) t.second (u32 (t.sub_second + d.sub_second)) in
    let m = carry 60 (2 ^ 8) t.minute (u8 (s.0 + d.second)) in
    let k = carry 60 (2 ^ 8) t.hour (u8 (m.0 + d.minute)) in
    u16 ((carry 24 (2 ^ 16) t.day (u8 (k.0 + d.hour))).0 + d.day)

module _ (t d : Time) (v : IsNormal t) (w : IsLength d) (early : t.year < 60000) where
  -- The sum of a normal time with a year field below 60000 and a normal length of less than 365
  -- days (with a year field of 0) has the sum of their nanoseconds.
  pub nanoseconds-add : nanoseconds (add t d) ≡ nanoseconds t + nanoseconds d
  unfolding add
  nanoseconds-add =
      let x = u32 (t.sub_second + d.sub_second) in
      let s = carry subsecond_fraction (2 ^ 8) t.second x in
      let m = carry 60 (2 ^ 8) t.minute (u8 (s.0 + d.second)) in
      let k = carry 60 (2 ^ 8) t.hour (u8 (m.0 + d.minute)) in
      let e = carry 24 (2 ^ 16) t.day (u8 (k.0 + d.hour)) in
      let long = days_in_year_bounds (u16 (t.year + 1970)) in
      let cs = carry-Carries subsecond_fraction (2 ^ 8) t.second x (omega arith) (omega arith) in
      let cm =
        carry-Carries 60 (2 ^ 8) t.minute (u8 (s.0 + d.second)) (omega arith) (omega arith) in
      let ck = carry-Carries 60 (2 ^ 8) t.hour (u8 (m.0 + d.minute)) (omega arith) (omega arith) in
      let ce = carry-Carries 24 (2 ^ 16) t.day (u8 (k.0 + d.hour)) (omega arith) (omega arith) in
      let days = u16 (e.0 + d.day) in
      let fits : t.year * 365 + days < 63000 * 365 = omega arith in
      omega (
        arith,
        roll_years-days days t.year days fits,
        roll_years-le days t.year days fits,
        ap days_before w.no_years,
        ap days_before (
            same_year (roll_years days t.year days).0 d.year w.no_years
              (omega (arith, roll_years-le days t.year days fits))),
      )

  -- The sum is a normal time again.
  pub add-IsNormal : IsNormal (add t d)
  unfolding add
  add-IsNormal = record {
    day_in = omega (
      arith,
      roll_years-lt _ t.year _ (le_refl (add_days t d)),
      ap (λ (y : ℕ). days_in_year (u16 (y + 1970)))
          (same_year _ d.year w.no_years
            (roll_years_fits (add_days t d) t.year (add_days t d) (omega arith))),
    );
    hour_in = omega (arith, carry-lt 24 (2 ^ 16) t.day _ (omega arith));
    minute_in = omega (arith, carry-lt 60 (2 ^ 8) t.hour _ (omega arith));
    second_in = omega (arith, carry-lt 60 (2 ^ 8) t.minute _ (omega arith));
    sub_second_in = omega (arith, carry-lt subsecond_fraction (2 ^ 8) t.second _ (omega arith));
  }
