-- ===== src/Examples/Loading.antt =====
-- A configuration of an AND element, as JSON values that are numbered.
use logic_elements.Base.{ℕ, ◌≡◌, refl, Bool, true, [], ◌∷◌, none, some, if◌then◌else◌, All, ◌==◌}
use logic_elements.Base.Int.{pos}
use logic_elements.Base.Decimal.{decimal_loop}
use logic_elements.Core.Port.{name_eq}
use logic_elements.Core.Element.Typed.{IsTyped}
use logic_elements.Core.Element.Types.{bytes, and_gate, find_type, parse_digital_type}
use logic_elements.Core.Engine.{
  Engine, add_element, register, get_element, find_name, sort_elements, with_orders, sort_by_order,
  insert_by_order,
}
use logic_elements.Core.Order.{get_order, find_order, source_orders, highest}
use logic_elements.Core.Engine.Placed.{IsPlaced}
use logic_elements.Core.Engine.Text.{c_string, copy_and_clamp}
use logic_elements.Digital.{
  State, and_state, digital_element, names_from, single_output, construct, add_element_def,
}
use logic_elements.Builder.{parse_elements, parse_nets, build, Load, attached, load_config}
use logic_elements.Builder.Values.{JsonOps, ArgumentOps, ok, each, and_then, no_errors}
use logic_elements.Builder.Items.{parse_element_arguments, typed_element}
use logic_elements.Builder.Typed.{load_config-IsTyped}
use logic_elements.Builder.Named.{IsNamed, build-IsNamed}
use logic_elements.Builder.Reports.{IsReported, load_config-IsReported}
use logic_elements.Examples.Build.{whole, now}

-- {"name": "E", "elements": [{"name": "A", "type": "ElementType::AND", "args": [1]}], "nets": []}
abbrev numbered : JsonOps ℕ ℕ
numbered = record {
  parse = λ text. some 0;
  field = λ j name.
      if name_eq name (bytes "name")
      then (if j == 0 then some 1 else some 5)
      else if name_eq name (bytes "type")
      then some 6
      else if name_eq name (bytes "args")
      then some 7
      else if name_eq name (bytes "elements")
      then some 2
      else if name_eq name (bytes "nets")
      then some 3
      else none;
  text_of = λ j.
      if j == 1
      then some (bytes "E")
      else if j == 5
      then some (bytes "A")
      else if j == 6
      then some (bytes "ElementType::AND")
      else none;
  array_of = λ j. if j == 2 then some (4 ∷ []) else if j == 3 then some [] else none;
  is_object = λ j. j == 0;
  items = λ j. if j == 7 then 8 ∷ [] else [];
  integer_of = λ j. if j == 8 then some (pos 1) else none;
  float_of = λ j. none;
  bool_of = λ j. none;
  dump = λ j. [];
  null = 9;
}

abbrev arguments : ArgumentOps ℕ
arguments = record {
  with_u = λ n. record { u_arg = n; f_arg = 0 };
  with_f = λ f. record { u_arg = 0; f_arg = f };
  with_b = λ b. record { u_arg = if b then 1 else 0; f_arg = 0 };
  with_s = λ text. record { u_arg = 0; f_arg = 0 };
}

abbrev built : Engine (State ℕ) Bool
built = record {
  elements = 0 ∷ [];
  elements_by_name = (bytes "A", 0) ∷ [];
  store = digital_element and_gate and_state (bytes "input_0" ∷ []) single_output ∷ [];
}

built_run : build numbered arguments whole 1 now 0 ≡ some (ok built)
unfolding build parse_elements parse_nets each and_then typed_element parse_digital_type find_type
    parse_element_arguments add_element_def construct names_from add_element register get_element
    find_name sort_elements with_orders sort_by_order insert_by_order get_order find_order
    source_orders highest c_string copy_and_clamp decimal_loop
built_run = refl

abbrev result : Load (Engine (State ℕ) Bool)
result = record { returns = true; errors = no_errors; engine = attached built }

result_run : load_config numbered arguments whole 1 now (bytes "{}") ≡ some result
unfolding load_config
result_run = rw built_run refl

load_config-IsTyped_example : IsTyped built.store × IsPlaced built
load_config-IsTyped_example =
    load_config-IsTyped numbered arguments whole 1 now (bytes "{}") result built result_run refl

load_config-IsReported_example : IsReported numbered arguments whole 1 now result
load_config-IsReported_example =
    load_config-IsReported numbered arguments whole 1 now (bytes "{}") result result_run

build-IsNamed_example : All (λ item. IsNamed numbered arguments whole 1 now item built) (4 ∷ [])
build-IsNamed_example = build-IsNamed numbered arguments whole 1 now 0 built (4 ∷ []) refl built_run
