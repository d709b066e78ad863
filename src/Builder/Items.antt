-- ===== src/Builder/Items.antt =====
-- The items of a configuration, as src/LogicElements/src/Builder/le_Builder.cpp reads them.
use Prim.Native.String.{String}
use logic_elements.Base.{
  ℕ, ◌+◌, ◌-◌, ◌^◌, List, [], ◌∷◌, ◌++◌, Option, none, some, leb, ◌==◌, if◌then◌else◌, take, u8,
  ◌>>=◌,
}
use logic_elements.Base.Int.{ℤ}
use logic_elements.Core.Port.{Name}
use logic_elements.Core.Element.Types.{ElementType, bytes, parse_digital_type}
use logic_elements.Core.Engine.{NetConnection, Net, net_connection, element_net, add_input}
use logic_elements.Communication.Comms.{cast_unsigned}
use logic_elements.Digital.{Argument, ElementDef, element_def, input_name}
use logic_elements.Builder.Values.{
  Errors, set_error, Result, JsonOps, ArgumentOps, element_argument_length, default_ser_name,
  is_invalid, each, inv_engine_components, inv_engine_nets, inv_ser, no_minor,
  inv_components_output, inv_engine_nets_minor, inv_ser_point, ok, rejected,
}

module _ {J F : Type 0} (json : JsonOps J F) (arg : ArgumentOps F) where
  -- `j.contains(name) && j[name].is_string()`, with the text.
  abbrev pub text_field : J → String → Option Name
  text_field j name = do f ← json.field j (bytes name); json.text_of f

  -- `j[name]` of a value that is not constant, which adds the field where it is missing.
  abbrev pub field_or_null : J → String → J
  field_or_null j name = elim (json.field j (bytes name)) [ none ↦ json.null | some f ↦ f ]

  abbrev pub int_argument : ℤ → Argument F
  int_argument z = arg.with_u (cast_unsigned (2 ^ 16) z)

  abbrev pub text_argument : Name → Argument F
  text_argument text = arg.with_s (take (element_argument_length - 1) text)

  -- The chain of tests of `ParseElementArguments`; `none` is its last branch.
  abbrev pub argument_of : J → Option (Argument F)
  argument_of j = elim (json.integer_of j) [
    | some z ↦ some (int_argument z)
    | none ↦ elim (json.float_of j) [
      | some f ↦ some (arg.with_f f)
      | none ↦ elim (json.bool_of j) [
        | some b ↦ some (arg.with_b b)
        | none ↦ elim (json.text_of j) [ some text ↦ some (text_argument text) | none ↦ none ]
      ]
    ]
  ]

  abbrev pub put_argument : (ℕ → Argument F) → ℕ → Argument F → (ℕ → Argument F)
  put_argument args i a k = if k == i then a else args k

  -- `ParseElementArguments`, with the index of the next argument.
  unfoldable pub parse_element_arguments : List J → ℕ → (ℕ → Argument F) → (ℕ → Argument F)
  parse_element_arguments [] i args = args
  parse_element_arguments (j ∷ js) i args = if leb 5 i then args else elim (argument_of j) [
    | none ↦ parse_element_arguments js i args
    | some a ↦ parse_element_arguments js (i + 1) (put_argument args i a)
  ]

  abbrev pub components_error : Name → Errors
  components_error text = set_error inv_engine_components inv_components_output text

  -- One round of the loop of `ParseElements`, up to `AddElement`, by the type's text and the type.
  -- The element is constant: `element["args"]` where it is missing is undefined.
  unfoldable pub typed_element : J → Name → Name → ElementType → Option (Result (ElementDef F))
  typed_element j name type_text t =
      let def : ElementDef F = element_def (arg.with_u 0) name t in
      if is_invalid t
      then some (rejected (components_error type_text))
      else json.field j (bytes "args") >>= λ args.
          some (ok (record def { args = parse_element_arguments (json.items args) 0 def.args }))

  abbrev pub read_typed : J → Name → Option Name → Option (Result (ElementDef F))
  read_typed j name none = some (rejected (components_error (json.dump j)))
  read_typed j name (some t) = typed_element j name t (parse_digital_type t)

  abbrev pub read_named : J → Option Name → Option (Result (ElementDef F))
  read_named j none = some (rejected (components_error (json.dump j)))
  read_named j (some name) = read_typed j name (text_field j "type")

  abbrev pub read_element : J → Option (Result (ElementDef F))
  read_element j = read_named j (text_field j "name")

  -- `ParseNetConnection`
  unfoldable pub connection_of : J → Option Name → Option Name → Result NetConnection
  connection_of j (some name) (some port) = ok (net_connection name port)
  connection_of j _ _ = rejected (set_error inv_engine_nets inv_engine_nets_minor (json.dump j))

  abbrev pub parse_net_connection : J → Result NetConnection
  parse_net_connection j = connection_of j (text_field j "name") (text_field j "port")

  abbrev pub nets_error : J → Errors
  nets_error j = set_error inv_engine_nets no_minor (json.dump j)

  -- One input of a net, at the end of those before it.
  abbrev pub push_input : Net → Result NetConnection → Option (Result Net)
  push_input net (rejected e) = some (rejected e)
  push_input net (ok connection) = some (ok (record net { inputs = net.inputs ++ connection ∷ [] }))

  abbrev pub parse_input : Net → J → Option (Result Net)
  parse_input net j = push_input net (parse_net_connection j)

  -- The inputs of a net, and then its output before them.
  unfoldable pub net_inputs : J → NetConnection → Option (List J) → Option (Result Net)
  net_inputs j output none = some (rejected (nets_error j))
  net_inputs j output (some inputs) =
      each parse_input (record { output = output; inputs = [] }) inputs

  abbrev pub array_field : J → String → Option (List J)
  array_field j name = do f ← json.field j (bytes name); json.array_of f

  abbrev pub with_output : J → Result NetConnection → Option (Result Net)
  with_output j (rejected e) = some (rejected e)
  with_output j (ok output) = net_inputs j output (array_field j "inputs")

  abbrev pub net_output : J → Option J → Option (Result Net)
  net_output j none = some (rejected (nets_error j))
  net_output j (some output) =
      if json.is_object output
      then with_output j (parse_net_connection output)
      else some (rejected (nets_error j))

  abbrev pub read_net : J → Option (Result Net)
  read_net j = net_output j (json.field j (bytes "output"))

  -- One round of the loop of `ParseSER`, with the counter, a `uint8_t`, and the nets so far. The
  -- slot has to be a number, and is not used.
  unfoldable pub ser_point :
      ℕ × List Net → J → Option Name → Option ℤ → Option (Result (ℕ × List Net))
  ser_point (count, nets) j (some name) (some slot) =
      let net = add_input (element_net name (bytes "output")) default_ser_name (input_name count) in
      some (ok (u8 (count + 1), nets ++ net ∷ []))
  ser_point (count, nets) j _ _ = some (rejected (set_error inv_ser inv_ser_point (json.dump j)))

  abbrev pub read_ser_point : ℕ × List Net → J → Option (Result (ℕ × List Net))
  read_ser_point points j =
      ser_point points j (text_field j "name") (json.field j (bytes "slot") >>= json.integer_of)
