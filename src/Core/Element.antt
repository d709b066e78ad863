-- ===== src/Core/Element.antt =====
-- src/LogicElements/include/Core/le_Element.hpp and src/LogicElements/src/Core/le_Element.cpp: the
-- ports of an element, and connecting them. Elements live in a store, and a pointer to one is its
-- place there. `S` stands for the fields of the derived classes, `V` for the values of ports.
pub mod Types
pub mod Connect
pub mod Typed
use logic_elements.Base.{
  ℕ, suc, ◌+◌, Bool, true, false, List, [], ◌∷◌, ◌++◌, Option, none, some, if◌then◌else◌, get_elem?,
  set, ◌>>=◌,
}
use logic_elements.Core.Port.{
  Name, name_eq, PortType, port_type_eq, Source, InputPort, OutputPort, connect_port, input_port,
  output_port,
}
use Types.{ElementType}

pub record Element (S V : Type 0) : Type 0 where
  pub element_type : ElementType
  pub inputs : List InputPort
  pub outputs : List (OutputPort V)
  pub state : S

abbrev pub Store : Type 0 → Type 0 → Type 0
Store S V = List (Element S V)

-- `GetInputPort`: the place of the port. `AddInputPort` overwrites the entry of an earlier port of
-- the same name in the map, so the last one is found.
unfoldable pub get_input_port : List InputPort → Name → Option ℕ
get_input_port [] name = none
get_input_port (p ∷ ports) name = elim (get_input_port ports name) [
  | some i ↦ some (suc i)
  | none ↦ if name_eq p.name name then some 0 else none
]

-- `GetOutputPort`.
unfoldable pub get_output_port : {V : Type 0} → List (OutputPort V) → Name → Option ℕ
get_output_port [] name = none
get_output_port (p ∷ ports) name = elim (get_output_port ports name) [
  | some i ↦ some (suc i)
  | none ↦ if name_eq p.name name then some 0 else none
]

module _ {S V : Type 0} where
  -- `AddInputPort<T>` and `AddOutputPort<T>`, for the port type of `T`.
  unfoldable pub add_input_port : Element S V → Name → PortType → Element S V
  add_input_port e name port_type = record e { inputs = e.inputs ++ input_port name port_type ∷ [] }

  unfoldable pub add_output_port : Element S V → V → Name → PortType → Element S V
  add_output_port e zero_value name port_type = record e {
    outputs = e.outputs ++ output_port zero_value name port_type ∷ [];
  }

  -- The input port `i` of the element, with its `pSource` set.
  abbrev pub set_source : Element S V → ℕ → InputPort → Source → Element S V
  set_source e i p source = record e { inputs = set e.inputs i (connect_port p source) }

  -- `outputElement->GetOutputPort(name)`: the port and its place. `none` is a null pointer, or a
  -- place where the store has no element.
  unfoldable pub find_output : Store S V → ℕ → Name → Option (ℕ × OutputPort V)
  find_output store e name = do
    from ← get_elem? store e
    k ← get_output_port from.outputs name
    output ← get_elem? from.outputs k
    some (k, output)

  -- `inputElement->GetInputPort(name)`: the element, the place of the port, and the port.
  unfoldable pub find_input : Store S V → ℕ → Name → Option (Element S V × ℕ × InputPort)
  find_input store e name = do
    to ← get_elem? store e
    i ← get_input_port to.inputs name
    input ← get_elem? to.inputs i
    some (to, i, input)

  -- `Element::Connect`, with the new store. The casts to `OutputPort<T>` and `InputPort<T>`
  -- succeed, since a port's type tag is that of its `T`.
  unfoldable pub connect : Store S V → ℕ → Name → ℕ → Name → Store S V × Bool
  connect store out_element out_name in_element in_name =
      elim (find_output store out_element out_name) [
        | none ↦ (store, false)
        | some (k, output) ↦ elim (find_input store in_element in_name) [
          | none ↦ (store, false)
          | some (to, i, input) ↦
              if port_type_eq output.port_type input.port_type
              then (
                set store in_element
                    (set_source to i input (record { element = out_element; output = k })),
                true,
              )
              else (store, false)
        ]
      ]
