-- ===== src/Examples/Clocks.antt =====
-- Clock readings, and a timer on them.
use logic_elements.Base.{ℕ, ◌+◌, ◌^◌, ◌<◌, ◌≡◌, refl, ◌∙◌, true, [], ◌∷◌, some, leb, arith}
use logic_elements.Base.Int.{sub_ℕ}
use logic_elements.Time.{
  Time, time, update, add, subtract, has_elapsed, roll_years, carry, subsecond_fraction,
}
use logic_elements.Time.Calendar.{days_in_year, is_leap_year}
use logic_elements.Time.Epoch.{nanoseconds, days_before}
use logic_elements.Time.Carry.{IsNormal, InRange, update-IsNormal, nanoseconds-update}
use logic_elements.Time.Sum.{IsLength, nanoseconds-add}
use logic_elements.Time.Order.{microseconds, subtract-eq, has_elapsed-eq}
use logic_elements.Elements.Timer.{Timer, timer, timer_update, pickup}
use logic_elements.Elements.Timer.Steps.{IsClock}
use logic_elements.Elements.Timer.Delay.{
  Clocks, run, some_passed, timer_on_delay, timer_whole_seconds,
}

-- 10 April 2024, noon, and that many nanoseconds after it.
abbrev noon_after : ℕ → Time
noon_after n = record { year = 54; day = 100; hour = 12; minute = 0; second = 0; sub_second = n }

abbrev noon : Time
noon = noon_after 0

noon-IsNormal : (n : ℕ) → n < subsecond_fraction → IsNormal (noon_after n)
unfolding days_in_year is_leap_year
noon-IsNormal n h = record {
  day_in = omega arith;
  hour_in = omega arith;
  minute_in = omega arith;
  second_in = omega arith;
  sub_second_in = h;
}

days_2024 : days_before 54 ≡ 19723
unfolding days_in_year is_leap_year
days_2024 = refl

noon-IsClock : (n : ℕ) → n < subsecond_fraction → IsClock (noon_after n)
noon-IsClock n h = record { normal = noon-IsNormal n h; early = omega (arith, days_2024) }

noon_in : (n : ℕ) → n < subsecond_fraction → nanoseconds (noon_after n) < 2 ^ 62
noon_in n h = omega (arith, days_2024)

-- The last nanosecond of 2023, and one more.
abbrev year_end : Time
year_end = record {
  year = 53;
  day = 364;
  hour = 23;
  minute = 59;
  second = 59;
  sub_second = 999999999;
}

year_end_run :
    update year_end 1
    ≡ record { year = 54; day = 0; hour = 0; minute = 0; second = 0; sub_second = 0 }
unfolding update roll_years days_in_year is_leap_year carry
year_end_run = refl

update-IsNormal_example : IsNormal (update year_end 1)
update-IsNormal_example = update-IsNormal year_end 1

year_end-InRange : InRange year_end
year_end-InRange = record {
  hour_fits = omega arith;
  minute_fits = omega arith;
  second_fits = omega arith;
  day_fits = omega arith;
  days_fit = omega arith;
}

nanoseconds-update_example : nanoseconds (update year_end 1) ≡ nanoseconds year_end + 1
nanoseconds-update_example = nanoseconds-update year_end 1 year_end-InRange (omega arith)

abbrev two_hours : Time
two_hours = record { year = 0; day = 0; hour = 2; minute = 0; second = 0; sub_second = 0 }

two_hours-IsLength : IsLength two_hours
two_hours-IsLength = record {
  no_years = refl;
  day_in = omega arith;
  hour_in = omega arith;
  minute_in = omega arith;
  second_in = omega arith;
  sub_second_in = omega arith;
}

nanoseconds-add_example :
    nanoseconds (add noon two_hours) ≡ nanoseconds noon + nanoseconds two_hours
nanoseconds-add_example =
    nanoseconds-add noon two_hours (noon-IsNormal 0 (omega arith)) two_hours-IsLength (omega arith)

subtract-eq_example :
    subtract (noon_after 5000) noon ≡ sub_ℕ (microseconds (noon_after 5000)) (microseconds noon)
subtract-eq_example =
    subtract-eq (noon_after 5000) noon (omega (arith, days_2024)) (omega (arith, days_2024))

noon-Clocks : Clocks (noon_after 200000000 ∷ noon_after 600000000 ∷ [])
noon-Clocks = (noon-IsClock 200000000 (omega arith), (noon-IsClock 600000000 (omega arith), tt))

-- A pickup delay of half a second.
timer_on_delay_example :
    (run
      (timer_update (timer 500000000 100000000) noon (some true))
      true
      (noon_after 200000000 ∷ noon_after 600000000 ∷ [])).output
    ≡ some_passed noon 500000000 (noon_after 200000000 ∷ noon_after 600000000 ∷ [])
timer_on_delay_example =
    timer_on_delay noon 500000000 100000000 (omega arith)
      (noon_after 200000000 ∷ noon_after 600000000 ∷ []) (omega arith)
      (noon-IsClock 0 (omega arith)) noon-Clocks

-- A timer that picks up at noon.
abbrev picking : Timer
picking = record (timer 500000000 100000000) { state = pickup; pickup_time = noon }

picking_elapsed : has_elapsed noon picking.pickup_time ≡ true
picking_elapsed =
    has_elapsed-eq noon noon (omega (arith, days_2024)) (omega (arith, days_2024))
    ∙ same (microseconds noon)
  where
    same : (n : ℕ) → leb n n ≡ true
    same n = ground arith

picking_dropout : picking.dropout_length ≡ time 100000000 0 0 0 0 0
unfolding timer
picking_dropout = refl

-- A pickup delay of three seconds.
timer_whole_seconds_example : (timer_update (timer 3000000000 0) noon (some true)).output ≡ true
timer_whole_seconds_example = timer_whole_seconds noon 3000000000 0 (omega arith) (omega arith)
