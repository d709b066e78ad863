-- ===== src/Core/Engine.antt =====
-- src/LogicElements/src/Core/le_Engine.cpp: the engine that owns the elements, connects them by
-- name, keeps them sorted by their order, and updates them.
pub mod Text
pub mod Names
pub mod Placed
pub mod Taken
pub mod Sort
pub mod Pass
use logic_elements.Base.{
  ℕ, ◌+◌, List, [], ◌∷◌, ◌++◌, map, Option, none, some, leb, if◌then◌else◌, get_elem?, set, length,
  ◌>>=◌, u16, take,
}
use logic_elements.Time.{Time}
use logic_elements.Core.Port.{Name, name_eq, InputPort}
use logic_elements.Core.Element.{Element, Store, connect}
use logic_elements.Core.Order.{get_order}
use Text.{c_string, copy_and_clamp, element_name_length}

pub record Engine (S V : Type 0) : Type 0 where
  pub elements : List ℕ
  pub elements_by_name : List (Name × ℕ)
  pub store : Store S V

-- `ElementNetConnectionTypeDef`: two buffers of LE_ELEMENT_NAME_LENGTH bytes.
pub record NetConnection : Type 0 where
  pub name : List ℕ
  pub port : List ℕ

-- `ElementNetTypeDef`
pub record Net : Type 0 where
  pub output : NetConnection
  pub inputs : List NetConnection

-- A connection, as `AddInput` and the constructor of `ElementNetTypeDef` fill its two buffers.
abbrev pub net_connection : Name → Name → NetConnection
net_connection element_name port_name = record {
  name = copy_and_clamp element_name element_name_length;
  port = copy_and_clamp port_name element_name_length;
}

-- `ElementNetTypeDef::ElementNetTypeDef`
abbrev pub element_net : Name → Name → Net
element_net element_name output_port_name = record {
  output = net_connection element_name output_port_name;
  inputs = [];
}

-- `ElementNetTypeDef::AddInput`
abbrev pub add_input : Net → Name → Name → Net
add_input net element_name input_port_name = record net {
  inputs = net.inputs ++ net_connection element_name input_port_name ∷ [];
}

-- The virtual `Element::Update`: from the time, the readings of the element's input ports, and the
-- element.
abbrev pub Behaviour : Type 0 → Type 0 → Type 0
Behaviour S V = Time → List (Option (ℕ × V)) → Element S V → Element S V

-- `_elementsByName.find`.
unfoldable pub find_name : List (Name × ℕ) → Name → Option ℕ
find_name [] name = none
find_name ((n, e) ∷ names) name = if name_eq n name then some e else find_name names name

-- Insertion by order, before what has the same order: `std::sort` promises no order among those.
unfoldable pub insert_by_order : ℕ × ℕ → List (ℕ × ℕ) → List (ℕ × ℕ)
insert_by_order x [] = x ∷ []
insert_by_order x (y ∷ ys) = if leb x.0 y.0 then x ∷ y ∷ ys else y ∷ insert_by_order x ys

unfoldable pub sort_by_order : List (ℕ × ℕ) → List (ℕ × ℕ)
sort_by_order [] = []
sort_by_order (x ∷ xs) = insert_by_order x (sort_by_order xs)

module _ {S V : Type 0} where
  -- `Engine::GetElement`.
  unfoldable pub get_element : Engine S V → Name → Option ℕ
  get_element g name = find_name g.elements_by_name name

  -- The elements with their orders, as the comparisons of `CompareElementOrders` find them.
  unfoldable pub with_orders : ℕ → Store S V → List ℕ → Option (List (ℕ × ℕ))
  with_orders fuel store [] = some []
  with_orders fuel store (e ∷ es) = do
    o ← get_order fuel store e
    rest ← with_orders fuel store es
    some ((o, e) ∷ rest)

  -- `Engine::SortElements`. `none`: `GetOrder` needs more fuel than there is.
  unfoldable pub sort_elements : ℕ → Engine S V → Option (Engine S V)
  sort_elements fuel g = do
    keyed ← with_orders fuel g.store g.elements
    some (record g { elements = map (λ x. x.1) (sort_by_order keyed) })

  -- The new element's place, and the map and list of `AddElement` before the sort.
  unfoldable pub register : Engine S V → Element S V → Name → Engine S V × ℕ
  register g el name =
      let fresh = length g.store in
      let store = g.store ++ el ∷ [] in
      elim (find_name g.elements_by_name name) [
        | none ↦ (
          record {
            elements = g.elements ++ fresh ∷ [];
            elements_by_name = (name, fresh) ∷ g.elements_by_name;
            store = store;
          },
          fresh,
        )
        | some e ↦ (record g { elements = g.elements ++ e ∷ []; store = store }, e)
      ]

  -- `Engine::AddElement(Element*, name)`: the map keeps the element that it has under the name, and
  -- that one is appended to the list.
  unfoldable pub add_element : ℕ → Engine S V → Element S V → Name → Option (Engine S V × ℕ)
  add_element fuel g el name = do
    let (g', e) = register g el name
    sorted ← sort_elements fuel g'
    some (sorted, e)

  -- One round of the loop of `AddNet`.
  unfoldable pub connect_input : Engine S V → ℕ → Name → NetConnection → Engine S V
  connect_input g output_element output_port input = elim (get_element g (c_string input.name)) [
    | none ↦ g
    | some input_element ↦ record g {
      store = (connect g.store output_element output_port input_element (c_string input.port)).0;
    }
  ]

  unfoldable pub connect_inputs : Engine S V → ℕ → Name → List NetConnection → Engine S V
  connect_inputs g output_element output_port [] = g
  connect_inputs g output_element output_port (input ∷ inputs) =
      connect_inputs (connect_input g output_element output_port input) output_element output_port
        inputs

  -- `Engine::AddNet`; the number of inputs is a `uint16_t`.
  unfoldable pub add_net : ℕ → Engine S V → Net → Option (Engine S V)
  add_net fuel g net = elim (get_element g (c_string net.output.name)) [
    | none ↦ some g
    | some output_element ↦ sort_elements fuel (
        connect_inputs g output_element (c_string net.output.port)
          (take (u16 (length net.inputs)) net.inputs))
  ]

  -- `InputPort::GetValue` where the port is connected, with the owner of the source; `none` where
  -- it is not.
  unfoldable pub read_input : Store S V → InputPort → Option (ℕ × V)
  read_input store p = do
    s ← p.source
    from ← get_elem? store s.element
    output ← get_elem? from.outputs s.output
    some (s.element, output.value)

  -- One round of `Engine::Update`.
  unfoldable pub update_element : Behaviour S V → Time → Store S V → ℕ → Store S V
  update_element behave now store e = elim (get_elem? store e) [
    | none ↦ store
    | some el ↦ set store e (behave now (map (read_input store) el.inputs) el)
  ]

  unfoldable pub update_elements : Behaviour S V → Time → Store S V → List ℕ → Store S V
  update_elements behave now store [] = store
  update_elements behave now store (e ∷ es) =
      update_elements behave now (update_element behave now store e) es

  -- `Engine::Update`, without the execution times that it measures (LE_ENGINE_EXECUTION_DIAG).
  unfoldable pub update : Behaviour S V → Engine S V → Time → Engine S V
  update behave g now = record g { store = update_elements behave now g.store g.elements }
