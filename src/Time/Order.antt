-- ===== src/Time/Order.antt =====
-- `operator-`, `HasElapsed` and `Align`, read as statements about nanoseconds since the epoch.
use native.Mathlib.Decide.{dec_lt}
use native.Mathlib.Nat.{le_of_eq, add-zero}
use logic_elements.Base.{
  sym, ◌∙◌, leb, lt→ltb, ℕ, zero, suc, ◌+◌, ◌*◌, ◌/◌, ◌^◌, ◌≤◌, ◌<◌, ◌≡◌, ap, arith, u16,
}
use logic_elements.Base.Int.{sub_ℕ, to_i64, to_i32, leb_ℤ, pos}
use logic_elements.Time.Calendar.{days_in_year}
use logic_elements.Time.Epoch.{days_before, nanoseconds, to_microseconds-eq}
use logic_elements.Time.{Time, subtract, has_elapsed, align, time, update}
use logic_elements.Time.Carry.{
  IsNormal, InRange, days_in_year_bounds, update-IsNormal, nanoseconds-update,
}

abbrev pub microseconds : Time → ℕ
microseconds t = nanoseconds t / 1000

to_i64-small : (n : ℕ) → n < 2 ^ 63 → to_i64 n ≡ pos n
to_i64-small n h = rw (lt→ltb n (2 ^ 63) h)

leb_ℤ-sub_ℕ : (a b : ℕ) → leb_ℤ (pos 0) (sub_ℕ a b) ≡ leb b a
leb_ℤ-sub_ℕ a b = ground arith

-- The difference in whole microseconds, for times before the year 2262.
pub subtract-eq :
    (t u : Time)
    → nanoseconds t < 2 ^ 63
    → nanoseconds u < 2 ^ 63
    → subtract t u ≡ sub_ℕ (microseconds t) (microseconds u)
unfolding subtract
subtract-eq t u h k =
    rw
      (
        to_microseconds-eq t (omega arith),
        to_microseconds-eq u (omega arith),
        to_i64-small (microseconds t) (omega arith),
        to_i64-small (microseconds u) (omega arith),
      )
      (ground arith)

-- For two times with fewer than 2 ^ 63 nanoseconds since the epoch, one has elapsed at the other
-- exactly when it is not later, in whole microseconds.
pub has_elapsed-eq :
    (t u : Time)
    → nanoseconds t < 2 ^ 63
    → nanoseconds u < 2 ^ 63
    → has_elapsed t u ≡ leb (microseconds u) (microseconds t)
unfolding has_elapsed
has_elapsed-eq t u h k = rw (subtract-eq t u h k) (leb_ℤ-sub_ℕ (microseconds t) (microseconds u))

days_before_mono : (i j : ℕ) → i ≤ j → days_before i ≤ days_before j
days_before_mono i zero h = omega (arith, ap days_before (at_zero i h))
  where
    at_zero : (i : ℕ) → i ≤ 0 → i ≡ 0
    at_zero i h = omega arith
days_before_mono i (suc j) h = elim (dec_lt i (suc j)) [
  | yes p ↦ omega (arith, days_before_mono i j (omega arith))
  | no p ↦ le_of_eq (ap days_before {y = suc j} (omega arith))
]

-- A normal time of an earlier year is earlier.
year-lt :
    (t u : Time)
    → IsNormal t
    → t.year < 60000
    → t.year < u.year
    → days_before t.year + t.day < days_before u.year + u.day
year-lt t u v early h =
    omega
      (arith, v.day_in, days_before_mono (suc t.year) u.year h, ap days_in_year (low t.year early))
  where
    low : (y : ℕ) → y < 60000 → u16 (y + 1970) ≡ 1970 + y
    low y h = omega arith

module _ (t u : Time) (v : IsNormal t) (w : IsNormal u) (early : t.year < 60000) where
  days-eq : nanoseconds t ≡ nanoseconds u → days_before t.year + t.day ≡ days_before u.year + u.day
  days-eq e = omega arith

  year-eq : nanoseconds t ≡ nanoseconds u → t.year ≡ u.year
  year-eq e = grind (arith, days-eq e, year-lt t u v early, year-lt u t w)

  -- Normal times of the same nanosecond are the same.
  pub nanoseconds_inj : nanoseconds t ≡ nanoseconds u → t ≡ u
  nanoseconds_inj e = ground (arith, year-eq e, days-eq e, ap days_before (year-eq e))

to_i32-small : (a b : ℕ) → a < b + 2 ^ 31 → b < a + 2 ^ 31 → to_i32 (sub_ℕ a b) ≡ sub_ℕ a b
to_i32-small a b h k = ground arith

pub days_before-ge : (y : ℕ) → 365 * y ≤ days_before y
days_before-ge zero = omega arith
days_before-ge (suc y) = omega (arith, days_before-ge y, days_in_year_bounds (1970 + y))

-- The constructor keeps the fields of a normal time.
pub time_normal :
    (w : Time)
    → IsNormal w
    → nanoseconds w < 2 ^ 63
    → time w.sub_second w.second w.minute w.hour w.day w.year ≡ w
unfolding time
time_normal w v h = sym (
    nanoseconds_inj w (update w 0) v (update-IsNormal w 0) early
      (sym (nanoseconds-update w 0 fits (omega arith) ∙ add-zero _)))
  where
    early : w.year < 60000
    early = omega (arith, days_before-ge w.year)

    fits : InRange w
    fits = omega (arith, days_before-ge w.year, days_in_year_bounds (u16 (w.year + 1970)), v.day_in)

-- Aligning a clock to a normal time less than 2 ^ 31 microseconds away, both with fewer than 2 ^ 63
-- nanoseconds since the epoch, sets the clock to that time and returns the signed difference in
-- microseconds.
pub align_lem :
    (t w : Time)
    → IsNormal w
    → nanoseconds w < 2 ^ 63
    → nanoseconds t < 2 ^ 63
    → microseconds w < microseconds t + 2 ^ 31
    → microseconds t < microseconds w + 2 ^ 31
    → align t w.sub_second w.second w.minute w.hour w.day w.year
      ≡ (w, sub_ℕ (microseconds w) (microseconds t))
unfolding align
align_lem t w v h k near near' =
    rw (time_normal w v h, subtract-eq w t h k, to_i32-small _ _ near near')
