-- ===== src/Core/Element/Types/Names.antt =====
-- `Engine::ParseElementType`: the names of the element types, each the one name of its type.
use Prim.Native.String.{String}
use logic_elements.Base.{
  List, [], ◌∷◌, ◌≡◌, refl, sym, ap, ◌∙◌, ◌≢◌, ◌↔◌, Bool, if◌then◌else◌, All, Bool-cases, inl, inr,
}
use logic_elements.Core.Port.{Name, name_eq, eq_of_name_eq}
use logic_elements.Core.Element.Types.{
  ElementType, bytes, type_names, find_type, parse_element_type, invalid, node_digital, and_gate,
  or_gate, not_gate, rtrig, ftrig, timer, counter, mux_digital, ser, node_analog, overcurrent,
  analog_1p_winding, analog_3p_winding, rect_2_polar, polar_2_rect, mux_analog, phasor_shift, add,
  subtract, multiply, divide, negate, abs, node_analog_complex, complex_2_rect, complex_2_polar,
  rect_2_complex, polar_2_complex, mux_analog_complex, add_complex, subtract_complex,
  multiply_complex, divide_complex, negate_complex, magnitude, math, pid,
}

-- The name of a type, by the type; the empty text for `invalid`.
abbrev pub name_of : ElementType → String
name_of node_digital = "ElementType::NodeDigital"
name_of and_gate = "ElementType::AND"
name_of or_gate = "ElementType::OR"
name_of not_gate = "ElementType::NOT"
name_of rtrig = "ElementType::RTrig"
name_of ftrig = "ElementType::FTrig"
name_of timer = "ElementType::Timer"
name_of counter = "ElementType::Counter"
name_of mux_digital = "ElementType::MuxDigital"
name_of ser = "ElementType::SER"
name_of node_analog = "ElementType::NodeAnalog"
name_of overcurrent = "ElementType::Overcurrent"
name_of analog_1p_winding = "ElementType::Analog1PWinding"
name_of analog_3p_winding = "ElementType::Analog3PWinding"
name_of rect_2_polar = "ElementType::Rect2Polar"
name_of polar_2_rect = "ElementType::Polar2Rect"
name_of mux_analog = "ElementType::MuxAnalog"
name_of phasor_shift = "ElementType::PhasorShift"
name_of add = "ElementType::Add"
name_of subtract = "ElementType::Subtract"
name_of multiply = "ElementType::Multiply"
name_of divide = "ElementType::Divide"
name_of negate = "ElementType::Negate"
name_of abs = "ElementType::Abs"
name_of node_analog_complex = "ElementType::NodeAnalogComplex"
name_of complex_2_rect = "ElementType::Complex2Rect"
name_of complex_2_polar = "ElementType::Complex2Polar"
name_of rect_2_complex = "ElementType::Rect2Complex"
name_of polar_2_complex = "ElementType::Polar2Complex"
name_of mux_analog_complex = "ElementType::MuxAnalogComplex"
name_of add_complex = "ElementType::AddComplex"
name_of subtract_complex = "ElementType::SubtractComplex"
name_of multiply_complex = "ElementType::MultiplyComplex"
name_of divide_complex = "ElementType::DivideComplex"
name_of negate_complex = "ElementType::NegateComplex"
name_of magnitude = "ElementType::Magnitude"
name_of math = "ElementType::Math"
name_of pid = "ElementType::PID"
name_of invalid = ""

parse-name_of : (t : ElementType) → t ≢ invalid → parse_element_type (bytes (name_of t)) ≡ t
unfolding parse_element_type find_type
parse-name_of node_digital h = refl
parse-name_of and_gate h = refl
parse-name_of or_gate h = refl
parse-name_of not_gate h = refl
parse-name_of rtrig h = refl
parse-name_of ftrig h = refl
parse-name_of timer h = refl
parse-name_of counter h = refl
parse-name_of mux_digital h = refl
parse-name_of ser h = refl
parse-name_of node_analog h = refl
parse-name_of overcurrent h = refl
parse-name_of analog_1p_winding h = refl
parse-name_of analog_3p_winding h = refl
parse-name_of rect_2_polar h = refl
parse-name_of polar_2_rect h = refl
parse-name_of mux_analog h = refl
parse-name_of phasor_shift h = refl
parse-name_of add h = refl
parse-name_of subtract h = refl
parse-name_of multiply h = refl
parse-name_of divide h = refl
parse-name_of negate h = refl
parse-name_of abs h = refl
parse-name_of node_analog_complex h = refl
parse-name_of complex_2_rect h = refl
parse-name_of complex_2_polar h = refl
parse-name_of rect_2_complex h = refl
parse-name_of polar_2_complex h = refl
parse-name_of mux_analog_complex h = refl
parse-name_of add_complex h = refl
parse-name_of subtract_complex h = refl
parse-name_of multiply_complex h = refl
parse-name_of divide_complex h = refl
parse-name_of negate_complex h = refl
parse-name_of magnitude h = refl
parse-name_of math h = refl
parse-name_of pid h = refl
parse-name_of invalid h = absurd (h refl)

find_type-name_of :
    (table : List (String × ElementType)) (name : Name) (t : ElementType)
    → All (λ x. name_of x.1 ≡ x.0) table
    → t ≢ invalid
    → find_type table name ≡ t
    → name ≡ bytes (name_of t)
unfolding find_type
find_type-name_of [] name t h ne e = absurd (ne (sym e))
find_type-name_of ((text, u) ∷ table) name t (h, hs) ne e =
    elim (Bool-cases (name_eq name (bytes text))) [
      | inl y ↦
          let same : u ≡ t = ap (λ (b : Bool). if b then u else find_type table name) (sym y) ∙ e in
          eq_of_name_eq name (bytes text) y
          ∙ ap bytes (sym h)
          ∙ ap (λ (v : ElementType). bytes (name_of v)) same
      | inr n ↦
          find_type-name_of table name t hs ne
            (ap (λ (b : Bool). if b then u else find_type table name) (sym n) ∙ e)
    ]

-- A text is parsed as a given element type, other than invalid, exactly when it is the one name of
-- that type.
pub parse_element_type_iff :
    (t : ElementType) (name : Name)
    → t ≢ invalid
    → (parse_element_type name ≡ t) ↔ (name ≡ bytes (name_of t))
unfolding parse_element_type
parse_element_type_iff t name h = (
  λ e.
      find_type-name_of type_names name t
        ((
          refl,
          (
            refl,
            (
              refl,
              (
                refl,
                (
                  refl,
                  (
                    refl,
                    (
                      refl,
                      (
                        refl,
                        (
                          refl,
                          (
                            refl,
                            (
                              refl,
                              (
                                refl,
                                (
                                  refl,
                                  (
                                    refl,
                                    (
                                      refl,
                                      (
                                        refl,
                                        (
                                          refl,
                                          (
                                            refl,
                                            (
                                              refl,
                                              (
                                                refl,
                                                (
                                                  refl,
                                                  (
                                                    refl,
                                                    (
                                                      refl,
                                                      (
                                                        refl,
                                                        (
                                                          refl,
                                                          (
                                                            refl,
                                                            (
                                                            refl,
                                                            (
                                                            refl,
                                                            (
                                                            refl,
                                                            (
                                                            refl,
                                                            (
                                                            refl,
                                                            (
                                                            refl,
                                                            (
                                                            refl,
                                                            (
                                                            refl,
                                                            (refl, (refl, (refl, (refl, tt)))),
                                                            ),
                                                            ),
                                                            ),
                                                            ),
                                                            ),
                                                            ),
                                                            ),
                                                            ),
                                                          ),
                                                        ),
                                                      ),
                                                    ),
                                                  ),
                                                ),
                                              ),
                                            ),
                                          ),
                                        ),
                                      ),
                                    ),
                                  ),
                                ),
                              ),
                            ),
                          ),
                        ),
                      ),
                    ),
                  ),
                ),
              ),
            ),
          ),
        ))
        h e,
  λ e. ap parse_element_type e ∙ parse-name_of t h,
)
