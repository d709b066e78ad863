-- ===== src/Examples/Build.antt =====
-- The digital build: a node, an element from its definition, and two AND gates.
use logic_elements.Base.{
  ℕ, zero, suc, ◌+◌, ◌*◌, ◌/◌, ◌-◌, ◌<◌, ◌≡◌, refl, Bool, true, false, [], ◌∷◌, none, some, ltb,
  arith, inl, inr, take, ◌↔◌,
}
use logic_elements.Base.Int.{pos_part}
use logic_elements.Base.Decimal.{decimal_loop}
use logic_elements.Time.{Time}
use logic_elements.Core.Port.{digital, input_port, output_port, connect_port}
use logic_elements.Core.Element.{Element}
use logic_elements.Core.Element.Types.{bytes, and_gate}
use logic_elements.Core.Element.Typed.{IsTyped, unconnected-IsTyped}
use logic_elements.Core.Engine.{
  Engine, update, add_element, register, find_name, sort_elements, with_orders, sort_by_order,
  insert_by_order,
}
use logic_elements.Core.Engine.Text.{c_string, copy_and_clamp}
use logic_elements.Core.Engine.Sort.{SourcesFirst}
use logic_elements.Core.Order.Chain.{IsSource}
use logic_elements.Core.Order.{get_order, find_order, source_orders, highest}
use logic_elements.Core.Node.{FloatOps, Node, node, node_update}
use logic_elements.Core.Node.History.{recent, IsValid, node_update-recent}
use logic_elements.Elements.Gates.{AllTrue}
use logic_elements.Digital.{
  State, and_state, ElementDef, element_def, digital_element, single_output, construct,
  add_element_def, behave, names_from,
}
use logic_elements.Digital.Gates.{signals, first_output, first_output-update_and}

-- Whole seconds in place of floats.
abbrev pub whole : FloatOps ℕ
whole = record {
  f_zero = 0;
  f_add = λ a b. a + b;
  f_greater = λ a b. ltb b a;
  f_seconds = λ z. pos_part z / 1000000;
  f_nanoseconds = λ n. n * 1000000000;
}

abbrev pub now : Time
now = record { year = 54; day = 100; hour = 12; minute = 0; second = 0; sub_second = 0 }

abbrev pub three : Node Bool ℕ
three = node whole false 3

three-IsValid : IsValid whole false three
unfolding node
three-IsValid = record { size = refl; write_in = omega arith }

node_update-recent_example :
    let n' = node_update whole three now (some true) in
    IsValid whole false n'
    × (recent whole false n'
        ≡ n'.output ∷ take (three.history_length - 1) (recent whole false three))
node_update-recent_example = node_update-recent whole false three now (some true) three-IsValid

abbrev empty : Engine (State ℕ) Bool
empty = record { elements = []; elements_by_name = []; store = [] }

abbrev gate_def : ElementDef ℕ
gate_def = record (element_def (record { u_arg = 2; f_arg = 0 }) (bytes "G1") and_gate) {
  element_type = and_gate;
}

abbrev gate : Element (State ℕ) Bool
gate = digital_element and_gate and_state (bytes "input_0" ∷ bytes "input_1" ∷ []) single_output

abbrev with_gate : Engine (State ℕ) Bool
with_gate = record { elements = 0 ∷ []; elements_by_name = (bytes "G1", 0) ∷ []; store = gate ∷ [] }

gate_run : add_element_def whole 2 now 0 empty gate_def ≡ some (with_gate, some 0)
unfolding add_element_def construct names_from add_element register find_name sort_elements
    with_orders sort_by_order insert_by_order get_order find_order source_orders highest c_string
    copy_and_clamp decimal_loop
gate_run = refl

empty-IsTyped : IsTyped empty.store
empty-IsTyped = unconnected-IsTyped [] tt

-- A second gate that reads the first.
abbrev reader : Element (State ℕ) Bool
reader = record gate {
  inputs =
      connect_port (input_port (bytes "input_0") digital) (record { element = 0; output = 0 }) ∷ [];
}

abbrev pair : Engine (State ℕ) Bool
pair = record {
  elements = 0 ∷ 1 ∷ [];
  elements_by_name = (bytes "G1", 0) ∷ (bytes "G2", 1) ∷ [];
  store = gate ∷ reader ∷ [];
}

pair_falls : (s e : ℕ) → IsSource pair.store s e → s < e
unfolding connect_port
pair_falls s zero (inl f) = absurd (unwired s f)
  where
    unwired : (s : ℕ) → none ≡ some s → ⊥
    unwired s f = cc
pair_falls s zero (inr (inl f)) = absurd (unwired s f)
  where
    unwired : (s : ℕ) → none ≡ some s → ⊥
    unwired s f = cc
pair_falls s zero (inr (inr f)) = absurd f
pair_falls s (suc zero) (inl f) = omega (arith, source s f)
  where
    source : (s : ℕ) → some 0 ≡ some s → 0 ≡ s
    source s e = cc
pair_falls s (suc zero) (inr f) = absurd f
pair_falls s (suc (suc e)) f = absurd f

pair_first : SourcesFirst pair.store pair.elements
pair_first = (
  (((omega arith, no_source 1 0 (omega arith)), tt), (tt, tt)),
  (no_source 0 0 (omega arith), (no_source 1 1 (omega arith), tt)),
)
  where
    no_source : (s e : ℕ) → (s < e → ⊥) → IsSource pair.store s e → ⊥
    no_source s e h f = h (pair_falls s e f)

first_output-update_and_example :
    let after = (update (behave whole) pair now).store in
    (v : Bool) × (first_output whole after 1 ≡ some v)
    × ((v ≡ true) ↔ AllTrue (signals whole after reader))
first_output-update_and_example =
    first_output-update_and whole pair now 1 reader (output_port false (bytes "output") digital)
      pair_first (inr (inl refl)) refl refl refl
