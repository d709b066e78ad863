-- ===== src/Elements/Overcurrent/Percent.antt =====
-- The percentage of an overcurrent element, over any history of readings.
use logic_elements.Base.{
  ◌≡◌, refl, sym, Bool, false, List, [], ◌∷◌, Option, none, some, if◌then◌else◌, if_cases,
}
use logic_elements.Time.{Time}
use logic_elements.Core.Port.{Name}
use logic_elements.Elements.Floats.{Floats, f_greater}
use logic_elements.Elements.Overcurrent.{
  Overcurrent, overcurrent, overcurrent_update, clamp_percent, full, empty,
}

-- How the floats 0 and 100 compare.
pub record ComparesConstants {F : Type 0} (ops : Floats F) : Type 0 where
  pub full_less_full : ops.f_less (full ops) (full ops) ≡ false
  pub full_less_empty : ops.f_less (full ops) (empty ops) ≡ false
  pub empty_less_empty : ops.f_less (empty ops) (empty ops) ≡ false
  pub empty_equal_full : ops.f_equal (empty ops) (full ops) ≡ false

module _ {F : Type 0} (ops : Floats F) where
  -- Neither below 0 nor above 100.
  abbrev pub IsPercent : F → Type 0
  IsPercent p = (ops.f_less p (empty ops) ≡ false) × (f_greater ops p (full ops) ≡ false)

  pub record IsTripped (r : Overcurrent F) : Type 0 where
    pub in_range : IsPercent r.percent
    pub trips : r.trip ≡ ops.f_equal r.percent (full ops)

  -- An element after a history of updates, the newest first.
  abbrev pub run_overcurrent : Overcurrent F → List (Time × Option F) → Overcurrent F
  run_overcurrent r [] = r
  run_overcurrent r ((now, current) ∷ older) =
      overcurrent_update ops (run_overcurrent r older) now current

module _ {F : Type 0} (ops : Floats F) (laws : ComparesConstants ops) where
  empty-IsPercent : IsPercent ops (empty ops)
  empty-IsPercent = (laws.empty_less_empty, laws.full_less_empty)

  raised :
      (p : F)
      → f_greater ops p (full ops) ≡ false
      → IsPercent ops (if ops.f_less p (empty ops) then empty ops else p)
  raised p h =
      if_cases (IsPercent ops) (ops.f_less p (empty ops)) (λ _. empty-IsPercent) (λ e. (e, h))

  clamp_percent-IsPercent : (p : F) → IsPercent ops (clamp_percent ops p)
  unfolding clamp_percent
  clamp_percent-IsPercent p =
      if_cases (λ q. IsPercent ops (if ops.f_less q (empty ops) then empty ops else q))
        (f_greater ops p (full ops)) (λ _. raised (full ops) laws.full_less_full) (λ e. raised p e)

  update-IsTripped :
      (r : Overcurrent F) (now : Time) (current : Option F)
      → IsTripped ops r
      → IsTripped ops (overcurrent_update ops r now current)
  unfolding overcurrent_update
  update-IsTripped r now none v = record { in_range = v.in_range; trips = v.trips }
  update-IsTripped r now (some current) v = record {
    in_range = clamp_percent-IsPercent _;
    trips = refl;
  }

  -- Where the floats 0 and 100 compare as those numbers do, after any history of updates of a new
  -- overcurrent element its percentage is neither below 0 nor above 100, and its trip output says
  -- whether it is equal to 100.
  pub run_overcurrent-IsTripped :
      (curve : Name) (pickup time_dial time_adder : F) (em_reset : Bool)
      (history : List (Time × Option F))
      → IsTripped ops
          (run_overcurrent ops (overcurrent ops curve pickup time_dial time_adder em_reset) history)
  run_overcurrent-IsTripped curve pickup time_dial time_adder em_reset [] = record {
    in_range = empty-IsPercent;
    trips = sym laws.empty_equal_full;
  }
  run_overcurrent-IsTripped curve pickup time_dial time_adder em_reset ((now, current) ∷ older) =
      update-IsTripped _ now current
        (run_overcurrent-IsTripped curve pickup time_dial time_adder em_reset older)
