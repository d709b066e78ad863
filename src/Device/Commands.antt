-- ===== src/Device/Commands.antt =====
-- src/LogicElements/src/Device/le_DeviceCommandHandler.cpp: what a device does with a line of a
-- client, in the digital build. A command runs to its end before the next one starts, and the waits
-- between responses are left out. What other threads do meanwhile is an argument: whether the escape
-- key was requested, and the value that a port has, each time that a loop looks.
pub mod Pulse
pub mod Sent
use logic_elements.Base.{
  ℕ, ◌-◌, ◌+◌, Bool, true, false, not, ◌||◌, List, [], ◌∷◌, ◌++◌, Option, none, some, leb, ltb,
  ◌==◌, if◌then◌else◌, get_elem?, set, length, ◌>>=◌,
}
use logic_elements.Base.Decimal.{decimal}
use logic_elements.Core.Port.{Name}
use logic_elements.Core.Element.{Element}
use logic_elements.Core.Element.Types.{ElementType, bytes, node_digital, node_analog, ser}
use logic_elements.Core.Engine.{Engine, get_element}
use logic_elements.Core.Node.{FloatOps, override_node}
use logic_elements.Elements.Ser.{SerEvent, get_event_log}
use logic_elements.Digital.{State, node_state, ser_state}
use logic_elements.Communication.Comms.{
  MsgType, MsgReq, MsgResp, msg_echo, msg_id, msg_status, msg_target, msg_pulse, msg_ser, unknown,
  req, req_echo, req_target, req_pulse, req_ser, req_unknown, partialize_msg, msg_resp_max_length,
}

abbrev pub crlf : Name
crlf = 13 ∷ 10 ∷ []

-- "\r\n>> "
abbrev pub next_prompt : Name
next_prompt = 13 ∷ 10 ∷ bytes ">> "

-- A text and its mark as a bad response, as they are given to `partialize_msg`.
abbrev pub Message : Type 0
Message = Name × Bool

abbrev pub bad_message : Name → Message
bad_message text = (text, true)

abbrev pub not_attached : Message
not_attached = bad_message (bytes "Engine not attached" ++ crlf)

abbrev pub could_not_find : Name → Message
could_not_find name = bad_message (bytes "Could not find element: " ++ (name ++ crlf))

abbrev pub is_node_type : ElementType → Bool
is_node_type node_digital = true
is_node_type node_analog = true
is_node_type _ = false

abbrev pub is_ser_type : ElementType → Bool
is_ser_type ser = true
is_ser_type _ = false

-- "%s\t= %u\r\n"
abbrev pub target_line : Name → Bool → Message
target_line name value =
    bad_message (name ++ (9 ∷ bytes "= " ++ (decimal (if value then 1 else 0) ++ crlf)))

-- The loop of `executeTargetCommand`, with what it meets in each round: whether the escape key was
-- requested, and the value of the port.
unfoldable pub target_loop : Name → ℕ → List (Bool × Bool) → List Message
target_loop name repetition [] = []
target_loop name repetition ((escape, value) ∷ rounds) =
    if repetition == 0
    then []
    else if escape
    then []
    else target_line name value ∷ target_loop name (repetition - 1) rounds

-- What the handler meets, and what `GetInfo` prints for the board and for the engine.
pub record Surroundings : Type 0 where
  pub rounds : List (Bool × Bool)
  pub escapes : List Bool
  pub event_line : ℕ → SerEvent → Name
  pub board_info : Name
  pub engine_info : Name

abbrev pub no_status : Message
no_status =
    bad_message (bytes "Could not get engine status, no engine is currently attached." ++ crlf)

-- `GetFullError`
abbrev pub full_error : Name → Name → Name
full_error major [] = major
full_error major (c ∷ minor) = major ++ (bytes ": " ++ (c ∷ minor))

abbrev pub request_type : {F : Type 0} → MsgReq F → MsgType
request_type (req t) = t
request_type (req_echo text) = msg_echo
request_type (req_target name slot repetition delay) = msg_target
request_type (req_pulse name value duration) = msg_pulse
request_type (req_ser number) = msg_ser
request_type (req_unknown major minor) = unknown

-- The text that `WriteLine` is given for a part: it ends at the first zero byte of the part's
-- buffer, of which the text that `snprintf` made has none. Behind a full buffer stands, packed, the
-- byte of `badResponse`: zero for a good response. `none`: that of a bad one is no zero byte either,
-- and the part is read past its end.
abbrev pub part_text : MsgResp → Option Name
part_text p =
    if ltb (length p.text) msg_resp_max_length || not p.bad_response then some p.text else none

-- `sendResponses`
unfoldable pub send_responses : List MsgResp → Option (List Name)
send_responses [] = some []
send_responses (p ∷ ps) = do text ← part_text p; rest ← send_responses ps; some (text ∷ rest)

abbrev pub send_message : MsgType → Message → Option (List Name)
send_message t m = do parts ← partialize_msg t m.0 m.1; send_responses parts

unfoldable pub send_all : MsgType → List Message → Option (List Name)
send_all t [] = some []
send_all t (m ∷ messages) = do
  texts ← send_message t m
  rest ← send_all t messages
  some (texts ++ rest)

abbrev pub paired : {A B : Type 0} → A → B → Option (A × B)
paired a b = some (a, b)

module _ {F : Type 0} (ops : FloatOps F) (byte_as_bool : F → Bool) where
  -- `((Node<bool>*)element)->OverrideValue(...)`. `msg_req_pulse::GetValue` reads the first byte of
  -- the float as a `bool`, and 1.0f is greater than 0.5f, and 0.0f is not. `none`: the element is
  -- no node of the digital build.
  unfoldable pub pulse_state : State F → F → F → Option (State F)
  pulse_state (node_state n) value duration =
      some (node_state (override_node ops n (byte_as_bool value) duration))
  pulse_state s value duration = none

  abbrev pub is_not_node : Name → Message
  is_not_node name = bad_message (
      bytes "Element "
      ++ (name
          ++ (bytes " is not of type: ElementType::NodeDigital or ElementType::NodeAnalog"
              ++ crlf)))

  -- `executePulseCommand` at the element at place `e`.
  unfoldable pub pulse_element :
      Engine (State F) Bool
      → Name
      → ℕ
      → Element (State F) Bool
      → F
      → F
      → Option (Engine (State F) Bool × List Message)
  pulse_element g name e el value duration =
      let pulsed = pulse_state el.state value duration >>= λ s.
      let g' : Engine (State F) Bool = record g {
        store = set g.store e (record el { state = s });
      } in
      let r : Engine (State F) Bool × List Message =
        (g', bad_message (bytes "Pulse command executed" ++ crlf) ∷ []) in
      some r in
      if is_node_type el.element_type then pulsed else some (g, is_not_node name ∷ [])

  -- The same at what `GetElement` found.
  unfoldable pub pulse_found :
      Engine (State F) Bool
      → Name
      → Option ℕ
      → F
      → F
      → Option (Engine (State F) Bool × List Message)
  pulse_found g name none value duration = some (g, could_not_find name ∷ [])
  pulse_found g name (some e) value duration =
      get_elem? g.store e >>= λ el. pulse_element g name e el value duration

  -- The texts of `executeTargetCommand`.
  abbrev pub out_of_range : ℕ → Name → Message
  out_of_range slot name = bad_message (
      bytes "Output port "
      ++ (decimal slot ++ (bytes " is out of range for element " ++ (name ++ crlf))))

  -- `executeTargetCommand` for the element; every port is digital.
  unfoldable pub target_element :
      Element (State F) Bool → Name → ℕ → ℕ → List (Bool × Bool) → List Message
  target_element el name slot repetition rounds =
      if leb (length el.outputs) slot
      then out_of_range slot name ∷ []
      else target_loop name repetition rounds

  unfoldable pub target_found :
      Engine (State F) Bool → Name → Option ℕ → ℕ → ℕ → List (Bool × Bool) → Option (List Message)
  target_found g name none slot repetition rounds = some (could_not_find name ∷ [])
  target_found g name (some e) slot repetition rounds = do
    el ← get_elem? g.store e
    some (target_element el name slot repetition rounds)

  -- The loop of `executeSERCommand` over the events, with the escape key in each round, and the text
  -- that it prints for the event at an index.
  unfoldable pub ser_loop : (ℕ → SerEvent → Name) → ℕ → List SerEvent → List Bool → List Message
  ser_loop event_line i [] escapes = []
  ser_loop event_line i (event ∷ events) [] = []
  ser_loop event_line i (event ∷ events) (escape ∷ escapes) =
      let rest = ser_loop event_line (i + 1) events escapes in
      if escape then [] else bad_message (event_line i event) ∷ rest

  unfoldable pub ser_records : (ℕ → SerEvent → Name) → List SerEvent → List Bool → List Message
  ser_records event_line [] escapes = []
  ser_records event_line (event ∷ events) escapes =
      bad_message (
        bytes "Sequential Event Recorder Records ("
        ++ (decimal (length (event ∷ events)) ++ (bytes " Records):" ++ crlf)))
      ∷ ser_loop event_line 0 (event ∷ events) escapes

  unfoldable pub ser_element :
      (ℕ → SerEvent → Name) → State F → ℕ → List Bool → Option (List Message)
  ser_element event_line (ser_state s) number escapes =
      some (ser_records event_line (get_event_log s number) escapes)
  ser_element event_line s number escapes = none

  unfoldable pub ser_found :
      (ℕ → SerEvent → Name)
      → Engine (State F) Bool
      → Option ℕ
      → ℕ
      → List Bool
      → Option (List Message)
  ser_found event_line g none number escapes =
      some (bad_message (bytes "No SER active" ++ crlf) ∷ [])
  ser_found event_line g (some e) number escapes = get_elem? g.store e >>= λ el.
      if is_ser_type el.element_type
      then ser_element event_line el.state number escapes
      else some []

  -- `handleCommand`, before its responses are sent: `none` where a cast finds another class.
  unfoldable pub execute :
      Surroundings
      → Option (Engine (State F) Bool)
      → MsgReq F
      → Option (Option (Engine (State F) Bool) × List Message)
  execute w g (req_echo text) = some (g, (text ++ crlf, false) ∷ [])
  execute w g (req msg_id) = some (g, (w.board_info, false) ∷ [])
  execute w none (req msg_status) = some (none, no_status ∷ [])
  execute w (some g) (req msg_status) = some (some g, (w.engine_info, false) ∷ [])
  execute w none (req_target name slot repetition delay) = some (none, not_attached ∷ [])
  execute w (some g) (req_target name slot repetition delay) =
      target_found g name (get_element g name) slot repetition w.rounds >>= λ messages.
      paired (some g) messages
  execute w none (req_pulse name value duration) = some (none, not_attached ∷ [])
  execute w (some g) (req_pulse name value duration) =
      pulse_found g name (get_element g name) value duration >>= λ r. paired (some r.0) r.1
  execute w none (req_ser number) = some (none, not_attached ∷ [])
  execute w (some g) (req_ser number) =
      ser_found w.event_line g (get_element g (bytes "__SER__")) number w.escapes >>= λ messages.
      paired (some g) messages
  execute w g _ = some (g, [])

  -- A request as `handleClient` treats it, with the texts that it writes.
  unfoldable pub handle_request :
      Surroundings
      → Option (Engine (State F) Bool)
      → MsgReq F
      → Option (Option (Engine (State F) Bool) × List Name)
  handle_request w g (req_unknown major minor) = some (g, full_error major minor ∷ next_prompt ∷ [])
  handle_request w g request = do
    r ← execute w g request
    texts ← send_all (request_type request) r.1
    some (r.0, texts ++ next_prompt ∷ [])

  -- One round of the loop of `handleClient`, for what `parse_msg_req_command` makes of the line.
  unfoldable pub handle_line :
      Surroundings
      → Option (Engine (State F) Bool)
      → Name
      → Option (MsgReq F)
      → Option (Option (Engine (State F) Bool) × List Name)
  handle_line w g [] request = some (g, [])
  handle_line w g line none = some (g, [])
  handle_line w g line (some request) = handle_request w g request
