-- ===== src/Device/Board.antt =====
-- src/LogicElements/src/Device/le_Board.cpp and src/LogicElements/include/Device/le_Board.hpp: the
-- table of inputs and outputs, and the engine that the board runs. The board's hardware layer is
-- not under the model: `has_hal` says whether there is one, and the calls of it are results. The
-- build is one without LE_DNP3.
pub mod Validate
pub mod Bound
pub mod Outputs
use logic_elements.Base.{
  ℕ, Bool, true, false, not, List, [], ◌∷◌, ◌++◌, Option, none, some, ltb, if◌then◌else◌, get_elem?,
  set, length, ◌>>=◌,
}
use logic_elements.Time.{Time}
use logic_elements.Core.Port.{Name}
use logic_elements.Core.Element.{Store}
use logic_elements.Core.Element.Types.{ElementType, node_digital}
use logic_elements.Core.Engine.{Engine, Behaviour, get_element}
use logic_elements.Core.Engine
use logic_elements.Core.Engine.Text.{c_string, copy_and_clamp, element_name_length}

-- `GPIOPin`, by its port and pin.
pub record GpioPin : Type 0 where
  pub port : ℕ
  pub pin : ℕ

-- `BoardIODigital`, and `BoardIOAnalog`, which has no `invert`.
pub record BoardIo : Type 0 where
  pub name : List ℕ
  pub gpio : GpioPin
  pub invert : Bool
  pub element : Option ℕ

-- The calls of the hardware layer that have an effect.
pub data HalCall : Type 0 where
  configure_digital_input configure_digital_output configure_analog_input : GpioPin → HalCall
  write_digital : GpioPin → Bool → HalCall

-- The fields of `Board`. The counts of its configuration are the lengths of the three lists.
pub record Board (S V : Type 0) : Type 0 where
  pub engine : Option (Engine S V)
  pub has_hal : Bool
  pub is_paused : Bool
  pub is_invalidated : Bool
  pub inputs_need_updated : Bool
  pub digital_inputs : List BoardIo
  pub analog_inputs : List BoardIo
  pub outputs : List BoardIo

-- The type of a `NodeDigital`.
abbrev pub is_digital_node : ElementType → Bool
is_digital_node node_digital = true
is_digital_node _ = false

-- What is configured, if there is a hardware layer.
abbrev pub hal_calls : Bool → HalCall → List HalCall
hal_calls has_hal call = if has_hal then call ∷ [] else []

-- An entry as `AddIO` and `AddAnalogInput` write it.
abbrev pub board_io : Name → ℕ → ℕ → Bool → BoardIo
board_io name port pin invert = record {
  name = copy_and_clamp name element_name_length;
  gpio = record { port = port; pin = pin };
  invert = invert;
  element = none;
}

-- A slot of an array; `none` is a write outside it.
abbrev pub set_slot : List BoardIo → ℕ → BoardIo → Option (List BoardIo)
set_slot ios slot io = if ltb slot (length ios) then some (set ios slot io) else none

-- One round of a loop of `ValidateIO`, with the element that is found, the entries after this one,
-- and what the further rounds make of them.
unfoldable pub bind_first :
    BoardIo → Option ℕ → List BoardIo → List BoardIo × Bool → List BoardIo × Bool
bind_first io none ios rest = (record io { element = none } ∷ ios, false)
bind_first io (some e) ios rest = (record io { element = some e } ∷ rest.0, rest.1)

module _ {S V : Type 0} where
  -- The constructor, from the memory that it finds in the three arrays.
  abbrev pub board : Bool → List BoardIo → List BoardIo → List BoardIo → Board S V
  board has_hal digital_inputs analog_inputs outputs = record {
    engine = none;
    has_hal = has_hal;
    is_paused = true;
    is_invalidated = true;
    inputs_need_updated = false;
    digital_inputs = digital_inputs;
    analog_inputs = analog_inputs;
    outputs = outputs;
  }

  -- `AddInput`, `AddOutput` and `AddAnalogInput`.
  unfoldable pub add_input : Board S V → ℕ → Name → ℕ → ℕ → Bool → Option (Board S V × List HalCall)
  add_input b slot name port pin invert = do
    let io = board_io name port pin invert
    ios ← set_slot b.digital_inputs slot io
    some (record b { digital_inputs = ios }, hal_calls b.has_hal (configure_digital_input io.gpio))

  unfoldable pub add_output :
      Board S V → ℕ → Name → ℕ → ℕ → Bool → Option (Board S V × List HalCall)
  add_output b slot name port pin invert = do
    let io = board_io name port pin invert
    ios ← set_slot b.outputs slot io
    some (record b { outputs = ios }, hal_calls b.has_hal (configure_digital_output io.gpio))

  unfoldable pub add_analog_input : Board S V → ℕ → Name → ℕ → ℕ → Option (Board S V × List HalCall)
  add_analog_input b slot name port pin = do
    let io = board_io name port pin false
    ios ← set_slot b.analog_inputs slot io
    some (record b { analog_inputs = ios }, hal_calls b.has_hal (configure_analog_input io.gpio))

  -- `AttachEngine`, `Start`, `Pause` and `FlagInputForUpdate`.
  unfoldable pub attach_engine : Board S V → Option (Engine S V) → Board S V
  attach_engine b engine = record b { engine = engine; is_invalidated = true }

  unfoldable pub start : Board S V → Board S V
  start b = record b { is_paused = false }

  unfoldable pub pause : Board S V → Board S V
  pause b = record b { is_paused = true }

  unfoldable pub flag_input_for_update : Board S V → Board S V
  flag_input_for_update b = record b { inputs_need_updated = true }

  -- A loop of `ValidateIO`: it returns at the first name that the engine does not have.
  unfoldable pub bind_ios : Engine S V → List BoardIo → List BoardIo × Bool
  bind_ios g [] = ([], true)
  bind_ios g (io ∷ ios) = bind_first io (get_element g (c_string io.name)) ios (bind_ios g ios)

  unfoldable pub bind_outputs : Engine S V → Board S V → Board S V
  bind_outputs g b =
      let (ios, found) = bind_ios g b.outputs in
      record b { outputs = ios; is_invalidated = if found then false else b.is_invalidated }

  unfoldable pub bind_digital_inputs : Engine S V → Board S V → Board S V
  bind_digital_inputs g b =
      let (ios, found) = bind_ios g b.digital_inputs in
      let bound = record b { digital_inputs = ios } in if found then bind_outputs g bound else bound

  unfoldable pub bind_analog_inputs : Engine S V → Board S V → Board S V
  bind_analog_inputs g b =
      let (ios, found) = bind_ios g b.analog_inputs in
      let bound = record b { analog_inputs = ios } in
      if found then bind_digital_inputs g bound else bound

  -- `ValidateIO`, with the engine that is attached.
  unfoldable pub validate_io : Board S V → Option (Engine S V) → Board S V
  validate_io b none = b
  validate_io b (some g) = bind_analog_inputs g b

  -- `this->engine->Update(timeStamp)`; `none` is a null pointer that is followed.
  abbrev pub run_engine :
      Behaviour S V → Board S V → Time → Option (Engine S V) → Option (Board S V)
  run_engine behave b now none = none
  run_engine behave b now (some g) = some (record b { engine = some (Engine.update behave g now) })

  -- `Update`, after the validation.
  unfoldable pub run_checked : Behaviour S V → Board S V → Time → Option (Board S V)
  run_checked behave b now =
      if b.is_invalidated
      then some b
      else if b.is_paused
      then some b
      else run_engine behave b now b.engine

  unfoldable pub update : Behaviour S V → Board S V → Time → Option (Board S V)
  update behave b now =
      run_checked behave (if b.is_invalidated then validate_io b b.engine else b) now

-- The value of a node: `GetOutput` of what `element` points to, cast to a node of the digital build,
-- whose output port is its first. `none`: the element is of another class.
abbrev pub node_output : {S : Type 0} → Store S Bool → ℕ → Option Bool
node_output store e = do
  el ← get_elem? store e
  o ← get_elem? el.outputs 0
  if is_digital_node el.element_type then some o.value else none

-- `BoardUpdateOutput` for the value of the node: what is written to the pin.
abbrev pub update_output : BoardIo → Bool → HalCall
update_output io value = write_digital io.gpio (if io.invert then not value else value)

-- `BoardUpdateOutput` at an entry that points at an element: nothing without a hardware layer.
unfoldable pub board_update_output :
    {S : Type 0} → Bool → Store S Bool → BoardIo → ℕ → Option (List HalCall)
board_update_output false store io e = some []
board_update_output true store io e = do
  value ← node_output store e
  some (update_output io value ∷ [])

-- One round of the loop of `UpdateOutputs`: an output with no element is passed over.
unfoldable pub update_slot :
    {S : Type 0} → Bool → Store S Bool → BoardIo → Option ℕ → Option (List HalCall)
update_slot has_hal store io none = some []
update_slot has_hal store io (some e) = board_update_output has_hal store io e

-- `UpdateOutputs`: the calls of the hardware layer. `none` where a cast finds another class.
unfoldable pub update_outputs :
    {S : Type 0} → Bool → Store S Bool → List BoardIo → Option (List HalCall)
update_outputs has_hal store [] = some []
update_outputs has_hal store (io ∷ ios) = do
  calls ← update_slot has_hal store io io.element
  rest ← update_outputs has_hal store ios
  some (calls ++ rest)
