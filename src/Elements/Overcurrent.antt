-- ===== src/Elements/Overcurrent.antt =====
-- src/LogicElements/src/Elements/Control/le_Overcurrent.cpp and
-- src/LogicElements/include/Elements/Control/le_Overcurrent.hpp: the inverse time overcurrent element.
pub mod Percent
use Prim.Native.String.{String}
use logic_elements.Base.{
  ℕ, Bool, false, not, ◌&&◌, ◌||◌, List, [], ◌∷◌, Option, none, some, if◌then◌else◌, get_or,
}
use logic_elements.Time.{Time, epoch, subtract}
use logic_elements.Core.Port.{Name, name_eq}
use logic_elements.Core.Element.Types.{bytes}
use logic_elements.Elements.Floats.{Floats, f_greater}

-- `OvercurrentCurve`
pub data OvercurrentCurve : Type 0 where
  c1 c2 c3 c4 c5 u1 u2 u3 u4 u5 dt invalid_curve : OvercurrentCurve

abbrev pub curve_names : List (String × OvercurrentCurve)
curve_names =
    ("C1", c1)
    ∷ ("C2", c2)
    ∷ ("C3", c3)
    ∷ ("C4", c4)
    ∷ ("C5", c5)
    ∷ ("U1", u1)
    ∷ ("U2", u2)
    ∷ ("U3", u3)
    ∷ ("U4", u4)
    ∷ ("U5", u5)
    ∷ ("DT", dt)
    ∷ []

unfoldable pub find_curve : List (String × OvercurrentCurve) → Name → OvercurrentCurve
find_curve [] name = invalid_curve
find_curve ((text, c) ∷ rest) name = if name_eq name (bytes text) then c else find_curve rest name

-- `ParseCurveType`
unfoldable pub parse_curve_type : Name → OvercurrentCurve
parse_curve_type name = find_curve curve_names name

-- The fields of `Overcurrent`, with the value of its output port.
pub record Overcurrent (F : Type 0) : Type 0 where
  pub pickup : F
  pub time_dial : F
  pub time_adder : F
  pub em_reset : Bool
  pub parameters : List F
  pub percent : F
  pub last_time_stamp : Time
  pub trip : Bool

module _ {F : Type 0} (ops : Floats F) where
  abbrev one : F
  one = ops.f_decimal 1 0

  abbrev pub full : F
  full = ops.f_decimal 100 0

  abbrev pub empty : F
  empty = ops.f_decimal 0 0

  abbrev pub five : F → F → F → F → F → List F
  five a b c d e = a ∷ b ∷ c ∷ d ∷ e ∷ []

  -- `SetCurveParameters`
  unfoldable pub curve_parameters : OvercurrentCurve → List F
  curve_parameters c1 =
      five empty (ops.f_decimal 14 2) (ops.f_decimal 2 2) (ops.f_decimal 135 1) (ops.f_decimal 2 0)
  curve_parameters c2 =
      five empty (ops.f_decimal 135 1) (ops.f_decimal 2 0) (ops.f_decimal 473 1) (ops.f_decimal 2 0)
  curve_parameters c3 =
      five empty (ops.f_decimal 80 0) (ops.f_decimal 2 0) (ops.f_decimal 80 0) (ops.f_decimal 2 0)
  curve_parameters c4 =
      five empty (ops.f_decimal 120 0) (ops.f_decimal 2 0) (ops.f_decimal 120 0) (ops.f_decimal 2 0)
  curve_parameters c5 =
      five empty (ops.f_decimal 515 4) (ops.f_decimal 2 2) (ops.f_decimal 485 2) (ops.f_decimal 2 0)
  curve_parameters u1 =
      five empty (ops.f_decimal 104 4) (ops.f_decimal 2 2) (ops.f_decimal 2261 3)
        (ops.f_decimal 2 0)
  curve_parameters u2 =
      five empty (ops.f_decimal 595 2) (ops.f_decimal 2 0) (ops.f_decimal 18 0) (ops.f_decimal 2 0)
  curve_parameters u3 =
      five empty (ops.f_decimal 388 2) (ops.f_decimal 2 0) (ops.f_decimal 216 1) (ops.f_decimal 2 0)
  curve_parameters u4 =
      five empty (ops.f_decimal 567 2) (ops.f_decimal 2 0) (ops.f_decimal 291 1) (ops.f_decimal 2 0)
  curve_parameters u5 =
      five empty (ops.f_decimal 342 5) (ops.f_decimal 2 2) (ops.f_decimal 323 3) (ops.f_decimal 2 0)
  curve_parameters dt = five empty empty one empty one
  curve_parameters invalid_curve = five empty empty one empty one

  -- The constructor.
  abbrev pub overcurrent : Name → F → F → F → Bool → Overcurrent F
  overcurrent curve pickup time_dial time_adder em_reset = record {
    pickup = pickup;
    time_dial = time_dial;
    time_adder = time_adder;
    em_reset = em_reset;
    parameters = curve_parameters (parse_curve_type curve);
    percent = empty;
    last_time_stamp = epoch;
    trip = false;
  }

  -- `ps[i]`
  abbrev pub parameter : Overcurrent F → ℕ → F
  parameter r i = get_or r.parameters i empty

  -- The trip time above the pickup, and the reset time below it, for a multiple of the pickup.
  abbrev pub trip_time : Overcurrent F → F → F
  trip_time r m = ops.f_add r.time_adder (
      ops.f_multiply r.time_dial (
        ops.f_add (parameter r 0)
          (ops.f_divide (parameter r 1) (ops.f_subtract (ops.f_power m (parameter r 2)) one))))

  abbrev pub reset_time : Overcurrent F → F → F
  reset_time r m =
      ops.f_divide (ops.f_multiply r.time_dial (parameter r 3))
        (ops.f_subtract one (ops.f_power m (parameter r 4)))

  -- The percentage before it is clamped.
  unfoldable pub turn : Overcurrent F → F → F → F
  turn r m time_step =
      if f_greater ops m one
      then ops.f_add r.percent (ops.f_divide time_step (trip_time r m))
      else if ops.f_less m one && r.em_reset
      then ops.f_subtract r.percent (ops.f_divide time_step (reset_time r m))
      else if ops.f_equal m one || not r.em_reset
      then empty
      else r.percent

  -- The two tests that clamp it.
  unfoldable pub clamp_percent : F → F
  clamp_percent p =
      let low : F = if f_greater ops p full then full else p in
      if ops.f_less low empty then empty else low

  -- `Update`
  unfoldable pub overcurrent_update : Overcurrent F → Time → Option F → Overcurrent F
  overcurrent_update r now none = record r { last_time_stamp = now }
  overcurrent_update r now (some current) =
      let time_step = ops.f_seconds (subtract now r.last_time_stamp) in
      let percent = clamp_percent (turn r (ops.f_divide current r.pickup) time_step) in
      record r { last_time_stamp = now; percent = percent; trip = ops.f_equal percent full }
