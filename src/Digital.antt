-- ===== src/Digital.antt =====
-- The build with digital elements only (without LE_ELEMENTS_ANALOG): the constructors of the elements
-- under src/LogicElements/src/Elements/Digital, their updates by the class of the element, and
-- `Engine::AddElement(ElementTypeDef*)` of src/LogicElements/src/Core/le_Engine.cpp.
pub mod Typed
pub mod Gates
use logic_elements.Base.{
  ℕ, zero, suc, ◌+◌, Bool, false, List, [], ◌∷◌, ◌++◌, map, Option, none, some, ◌==◌, if◌then◌else◌,
  get_or, u8, ◌>>=◌,
}
use logic_elements.Base.Decimal.{decimal}
use logic_elements.Time.{Time}
use logic_elements.Core.Port.{Name, digital, InputPort, OutputPort, input_port, output_port}
use logic_elements.Core.Element.{Element, get_input_port}
use logic_elements.Core.Element.Types.{
  ElementType, bytes, node_digital, and_gate, or_gate, not_gate, rtrig, ftrig, timer, counter,
  mux_digital, ser,
}
use logic_elements.Core.Engine.{Engine, Behaviour, add_element}
use logic_elements.Core.Engine.Text.{c_string, copy_and_clamp, element_name_length}
use logic_elements.Core.Node.{FloatOps, Node, node, node_update}
use logic_elements.Elements.Gates.{and_update, or_update, not_update}
use logic_elements.Elements.Trigger.{Trigger, trigger, rtrig_update, ftrig_update}
use logic_elements.Elements.Counter.{Counter, counter_update}
use logic_elements.Elements.Counter
use logic_elements.Elements.Timer.{Timer, timer_update}
use logic_elements.Elements.Timer
use logic_elements.Elements.Ser.{Ser, ser_update}
use logic_elements.Elements.Ser
use logic_elements.Elements.Mux.{mux_update}

-- What each class adds to `Element`. A multiplexer has its width and its number of input sets.
pub data State (F : Type 0) : Type 0 where
  and_state or_state not_state : State F
  rtrig_state ftrig_state : Trigger → State F
  counter_state : Counter → State F
  timer_state : Timer → State F
  ser_state : Ser → State F
  mux_state : ℕ → ℕ → State F
  node_state : Node Bool F → State F

-- `ElementArgumentTypeDef`, by the two members that the digital elements read. It is a union: the
-- two are readings of the same bytes, and here they are any number of 16 bits and any float.
pub record Argument (F : Type 0) : Type 0 where
  pub u_arg : ℕ
  pub f_arg : F

-- `ElementTypeDef`; `args` gives the argument at an index.
pub record ElementDef (F : Type 0) : Type 0 where
  pub name : List ℕ
  pub element_type : ElementType
  pub args : ℕ → Argument F

-- `ElementTypeDef::ElementTypeDef`
abbrev pub element_def : {F : Type 0} → Argument F → Name → ElementType → ElementDef F
element_def zero_argument name t = record {
  name = copy_and_clamp name element_name_length;
  element_type = t;
  args = λ i. zero_argument;
}

-- LE_PORT_INPUT_NAME, LE_PORT_OUTPUT_NAME and LE_PORT_INPUT_2D_NAME
abbrev pub input_name : ℕ → Name
input_name i = bytes "input_" ++ decimal i

abbrev pub output_name : ℕ → Name
output_name i = bytes "output_" ++ decimal i

abbrev pub input_2d_name : ℕ → ℕ → Name
input_2d_name set signal = bytes "input_" ++ decimal set ++ bytes "_" ++ decimal signal

-- The names that a loop over an index from `i` on makes.
unfoldable pub names_from : (ℕ → Name) → ℕ → ℕ → List Name
names_from name zero i = []
names_from name (suc left) i = name i ∷ names_from name left (i + 1)

-- The loops of the constructor of `Mux`.
unfoldable pub mux_input_names : ℕ → ℕ → ℕ → List Name
mux_input_names width zero set = []
mux_input_names width (suc left) set =
    names_from (input_2d_name set) width 0 ++ mux_input_names width left (set + 1)

abbrev pub digital_input : Name → InputPort
digital_input name = input_port name digital

abbrev pub digital_output : Name → OutputPort Bool
digital_output name = output_port false name digital

abbrev pub single_output : List Name
single_output = bytes "output" ∷ []

-- The value that a port reads.
abbrev pub signal : Option (ℕ × Bool) → Option Bool
signal none = none
signal (some v) = some v.1

abbrev pub signal_at : List (Option (ℕ × Bool)) → ℕ → Option Bool
signal_at readings i = signal (get_or readings i none)

abbrev pub with_value : OutputPort Bool → Bool → OutputPort Bool
with_value o v = record o { value = v }

-- New values for the output ports, as far as there are ports and values.
abbrev pub set_outputs : List (OutputPort Bool) → List Bool → List (OutputPort Bool)
set_outputs [] vs = []
set_outputs (o ∷ os) [] = o ∷ os
set_outputs (o ∷ os) (v ∷ vs) = with_value o v ∷ set_outputs os vs

abbrev pub output_values : List (OutputPort Bool) → List Bool
output_values [] = []
output_values (o ∷ os) = o.value ∷ output_values os

-- The reading of a port of the multiplexer, which it looks up by name.
abbrev pub mux_reading : List InputPort → List (Option (ℕ × Bool)) → Name → Option Bool
mux_reading inputs readings name = do i ← get_input_port inputs name; signal_at readings i

module _ {F : Type 0} where
  -- An element with digital ports.
  abbrev pub digital_element :
      ElementType → State F → List Name → List Name → Element (State F) Bool
  digital_element t state inputs outputs = record {
    element_type = t;
    inputs = map digital_input inputs;
    outputs = map digital_output outputs;
    state = state;
  }

  module _ (ops : FloatOps F) where
    -- The constructors, as the `switch` calls them; `none` is its default. `now` is the time of
    -- `SER::SER`, and `node_length` the field `uDefaultNodeBufferLength`.
    unfoldable pub construct :
        Time → ℕ → ElementType → (ℕ → Argument F) → Option (Element (State F) Bool)
    construct now node_length and_gate args = some (
        digital_element and_gate and_state (names_from input_name (u8 (args 0).u_arg) 0)
          single_output)
    construct now node_length or_gate args = some (
        digital_element or_gate or_state (names_from input_name (u8 (args 0).u_arg) 0)
          single_output)
    construct now node_length not_gate args =
        some (digital_element not_gate not_state (bytes "input" ∷ []) single_output)
    construct now node_length rtrig args =
        some (digital_element rtrig (rtrig_state trigger) (bytes "input" ∷ []) single_output)
    construct now node_length ftrig args =
        some (digital_element ftrig (ftrig_state trigger) (bytes "input" ∷ []) single_output)
    construct now node_length node_digital args =
        let len = if node_length == 0 then (args 0).u_arg else node_length in
        some (
          digital_element node_digital (node_state (node ops false len)) (bytes "input" ∷ [])
            single_output)
    construct now node_length timer args = some (
        digital_element timer
          (timer_state
            (Timer.timer (ops.f_nanoseconds (args 0).f_arg) (ops.f_nanoseconds (args 1).f_arg)))
          (bytes "input" ∷ []) single_output)
    construct now node_length counter args = some (
        digital_element counter (counter_state (Counter.counter (args 0).u_arg))
          (bytes "count_up" ∷ bytes "reset" ∷ []) single_output)
    construct now node_length ser args =
        let n = u8 (args 0).u_arg in
        some (digital_element ser (ser_state (Ser.ser n now)) (names_from input_name n 0) [])
    construct now node_length mux_digital args =
        let width = u8 (args 0).u_arg in
        let sets = u8 (args 1).u_arg in
        some (
          digital_element mux_digital (mux_state width sets)
            (mux_input_names width sets 0 ++ bytes "selector" ∷ [])
            (names_from output_name width 0))
    construct now node_length _ args = none

    -- `Engine::AddElement(ElementTypeDef*)`, with the element that it returns; `none` there is a null pointer.
    unfoldable pub add_element_def :
        ℕ
        → Time
        → ℕ
        → Engine (State F) Bool
        → ElementDef F
        → Option (Engine (State F) Bool × Option ℕ)
    add_element_def fuel now node_length g def =
        elim (construct now node_length def.element_type def.args) [
          | none ↦ some (g, none)
          | some el ↦ do
            added ← add_element fuel g el (c_string def.name)
            some (added.0, some added.1)
        ]

    -- The new fields and the new values of the output ports.
    unfoldable pub step :
        State F → Time → List InputPort → List (Option (ℕ × Bool)) → List Bool → State F × List Bool
    step and_state now inputs readings out = (and_state, and_update (map signal readings) ∷ [])
    step or_state now inputs readings out = (or_state, or_update (map signal readings) ∷ [])
    step not_state now inputs readings out =
        (not_state, not_update (signal_at readings 0) (get_or out 0 false) ∷ [])
    step (rtrig_state r) now inputs readings out =
        let r' = rtrig_update r (signal_at readings 0) in (rtrig_state r', r'.output ∷ [])
    step (ftrig_state r) now inputs readings out =
        let r' = ftrig_update r (signal_at readings 0) in (ftrig_state r', r'.output ∷ [])
    step (counter_state c) now inputs readings out =
        let c' = counter_update c (signal_at readings 0) (signal_at readings 1) in
        (counter_state c', c'.output ∷ [])
    step (timer_state r) now inputs readings out =
        let r' = timer_update r now (signal_at readings 0) in (timer_state r', r'.output ∷ [])
    step (ser_state s) now inputs readings out = (ser_state (ser_update s now readings), [])
    step (mux_state width sets) now inputs readings out = (
      mux_state width sets,
      mux_update width (λ set i. mux_reading inputs readings (input_2d_name set i))
          (mux_reading inputs readings (bytes "selector")) out,
    )
    step (node_state n) now inputs readings out =
        let n' = node_update ops n now (signal_at readings 0) in (node_state n', n'.output ∷ [])

    -- The virtual `Update` of the digital elements.
    unfoldable pub behave : Behaviour (State F) Bool
    behave now readings el =
        let r = step el.state now el.inputs readings (output_values el.outputs) in
        record el { outputs = set_outputs el.outputs r.1; state = r.0 }
