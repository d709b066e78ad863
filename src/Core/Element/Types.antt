-- ===== src/Core/Element/Types.antt =====
-- `ElementType` of src/LogicElements/include/Core/le_Element.hpp, and `Engine::ParseElementType` of
-- src/LogicElements/src/Core/le_Engine.cpp, in the build with every element enabled.
pub mod Names
use Prim.Native.Char.{code}
use Prim.Native.String.{String}
use logic_elements.Base.{List, [], ◌∷◌, if◌then◌else◌}
use logic_elements.Core.Port.{Name, name_eq}

pub data ElementType : Type 0 where
  node_digital node_analog node_analog_complex : ElementType
  and_gate or_gate not_gate rtrig ftrig : ElementType
  timer counter mux_digital ser : ElementType
  rect_2_polar polar_2_rect complex_2_rect complex_2_polar : ElementType
  rect_2_complex polar_2_complex : ElementType
  add subtract multiply divide negate abs : ElementType
  add_complex subtract_complex multiply_complex divide_complex negate_complex magnitude :
      ElementType
  mux_analog mux_analog_complex : ElementType
  phasor_shift math analog_1p_winding analog_3p_winding pid overcurrent invalid : ElementType

-- The bytes of a text.
abbrev pub bytes : String → Name
bytes String.[] = []
bytes (String.◌∷◌ c s) = code c ∷ bytes s

-- The tests of `ParseElementType`, in their order.
abbrev pub type_names : List (String × ElementType)
type_names =
    ("ElementType::NodeDigital", node_digital)
    ∷ ("ElementType::AND", and_gate)
    ∷ ("ElementType::OR", or_gate)
    ∷ ("ElementType::NOT", not_gate)
    ∷ ("ElementType::RTrig", rtrig)
    ∷ ("ElementType::FTrig", ftrig)
    ∷ ("ElementType::Timer", timer)
    ∷ ("ElementType::Counter", counter)
    ∷ ("ElementType::MuxDigital", mux_digital)
    ∷ ("ElementType::SER", ser)
    ∷ ("ElementType::NodeAnalog", node_analog)
    ∷ ("ElementType::Overcurrent", overcurrent)
    ∷ ("ElementType::Analog1PWinding", analog_1p_winding)
    ∷ ("ElementType::Analog3PWinding", analog_3p_winding)
    ∷ ("ElementType::Rect2Polar", rect_2_polar)
    ∷ ("ElementType::Polar2Rect", polar_2_rect)
    ∷ ("ElementType::MuxAnalog", mux_analog)
    ∷ ("ElementType::PhasorShift", phasor_shift)
    ∷ ("ElementType::Add", add)
    ∷ ("ElementType::Subtract", subtract)
    ∷ ("ElementType::Multiply", multiply)
    ∷ ("ElementType::Divide", divide)
    ∷ ("ElementType::Negate", negate)
    ∷ ("ElementType::Abs", abs)
    ∷ ("ElementType::NodeAnalogComplex", node_analog_complex)
    ∷ ("ElementType::Complex2Rect", complex_2_rect)
    ∷ ("ElementType::Complex2Polar", complex_2_polar)
    ∷ ("ElementType::Rect2Complex", rect_2_complex)
    ∷ ("ElementType::Polar2Complex", polar_2_complex)
    ∷ ("ElementType::MuxAnalogComplex", mux_analog_complex)
    ∷ ("ElementType::AddComplex", add_complex)
    ∷ ("ElementType::SubtractComplex", subtract_complex)
    ∷ ("ElementType::MultiplyComplex", multiply_complex)
    ∷ ("ElementType::DivideComplex", divide_complex)
    ∷ ("ElementType::NegateComplex", negate_complex)
    ∷ ("ElementType::Magnitude", magnitude)
    ∷ ("ElementType::Math", math)
    ∷ ("ElementType::PID", pid)
    ∷ []

unfoldable pub find_type : List (String × ElementType) → Name → ElementType
find_type [] name = invalid
find_type ((text, t) ∷ rest) name = if name_eq name (bytes text) then t else find_type rest name

-- `Engine::ParseElementType`.
unfoldable pub parse_element_type : Name → ElementType
unfolding find_type
parse_element_type name = find_type type_names name

-- The names of a build without LE_ELEMENTS_ANALOG.
abbrev pub digital_type_names : List (String × ElementType)
digital_type_names =
    ("ElementType::NodeDigital", node_digital)
    ∷ ("ElementType::AND", and_gate)
    ∷ ("ElementType::OR", or_gate)
    ∷ ("ElementType::NOT", not_gate)
    ∷ ("ElementType::RTrig", rtrig)
    ∷ ("ElementType::FTrig", ftrig)
    ∷ ("ElementType::Timer", timer)
    ∷ ("ElementType::Counter", counter)
    ∷ ("ElementType::MuxDigital", mux_digital)
    ∷ ("ElementType::SER", ser)
    ∷ []

-- `Engine::ParseElementType` of that build.
unfoldable pub parse_digital_type : Name → ElementType
parse_digital_type name = find_type digital_type_names name
