-- ===== src/Examples/Control.antt =====
-- The control elements over whole numbers in place of floats.
use logic_elements.Base.{
  ℕ, ◌+◌, ◌-◌, ◌*◌, ◌/◌, ◌^◌, ◌≡◌, ◌≤◌, ◌<◌, refl, true, [], ◌∷◌, none, some, ltb, ◌==◌, arith,
}
use logic_elements.Base.Int.{pos_part}
use logic_elements.Time.{Time}
use logic_elements.Core.Element.Types.{bytes}
use logic_elements.Elements.Floats.{Floats}
use logic_elements.Elements.Overcurrent.{overcurrent}
use logic_elements.Elements.Overcurrent.Percent.{
  ComparesConstants, IsTripped, run_overcurrent, run_overcurrent-IsTripped,
}
use logic_elements.Elements.Pid.{Pid, pid}
use logic_elements.Elements.Pid.Limits.{AreLimits, InLimits, run_pid, run_pid-InLimits}
use logic_elements.Elements.Winding.{Winding, rotate}
use logic_elements.Elements.Winding.Filter.{run_winding, phasor}
use logic_elements.Elements.Winding.Phasor.{run_winding-phasor}
use logic_elements.Examples.Build.{now}

abbrev whole_floats : Floats ℕ
whole_floats = record {
  f_decimal = λ n k. n / 10 ^ k;
  f_count = λ n. n;
  f_add = λ a b. a + b;
  f_subtract = λ a b. a - b;
  f_multiply = λ a b. a * b;
  f_divide = λ a b. a / b;
  f_power = λ a b. a ^ b;
  f_negate = λ a. a;
  f_root = λ a. a;
  f_cosine = λ a. a;
  f_sine = λ a. a;
  f_angle = λ a b. a;
  f_less = ltb;
  f_equal = λ a b. a == b;
  f_seconds = λ z. pos_part z / 1000000;
  f_coefficient = λ n i. i + 1;
}

whole-ComparesConstants : ComparesConstants whole_floats
whole-ComparesConstants = record {
  full_less_full = refl;
  full_less_empty = refl;
  empty_less_empty = refl;
  empty_equal_full = refl;
}

abbrev later : Time
later = record now { second = 30 }

run_overcurrent-IsTripped_example : IsTripped whole_floats (
    run_overcurrent whole_floats
      (overcurrent whole_floats (bytes "U3") 5 1 1 true)
      ((later, some 50) ∷ (now, none) ∷ []))
run_overcurrent-IsTripped_example =
    run_overcurrent-IsTripped whole_floats whole-ComparesConstants (bytes "U3") 5 1 1 true
      ((later, some 50) ∷ (now, none) ∷ [])

limits : AreLimits whole_floats 0 10
limits = record { low_less_low = refl; high_less_high = refl; high_less_low = refl }

run_pid-InLimits_example :
    (r : Pid ℕ) × (run_pid whole_floats
        (pid whole_floats 2 1 1 0 10 2 (0 ∷ 0 ∷ []) (0 ∷ 0 ∷ []))
        ((later, some 9, some 4) ∷ (now, some 9, none) ∷ [])
      ≡ some r)
    × InLimits whole_floats 0 10 r.output
run_pid-InLimits_example =
    run_pid-InLimits whole_floats 2 1 1 0 10 2 (0 ∷ 0 ∷ []) (0 ∷ 0 ∷ []) ((now, some 9, none) ∷ [])
      later 9 4 limits (omega arith) (omega arith) refl refl

four_large : 4 ≤ 4
four_large = omega arith

four_small : 4 < 2 ^ 16
four_small = omega arith

run_winding-phasor_example :
    (r : Winding ℕ) × (run_winding whole_floats 4
        ((some 7, none, none) ∷ (none, none, none) ∷ (some 3, none, none) ∷ [])
      ≡ some r)
    × ((r.real, r.imaginary)
        ≡ rotate whole_floats
            (phasor whole_floats 4
              ((some 7, none, none) ∷ (none, none, none) ∷ (some 3, none, none) ∷ []))
            none
            none)
run_winding-phasor_example =
    run_winding-phasor whole_floats 4 four_large four_small (some 7, none, none)
      ((none, none, none) ∷ (some 3, none, none) ∷ [])
