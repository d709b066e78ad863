-- ===== src/Core/Order.antt =====
-- `Element::GetOrder` and `Element::FindOrder` of src/LogicElements/src/Core/le_Element.cpp: the
-- update order of an element, found by walking its connections.
pub mod Chain
pub mod Cycle
use logic_elements.Base.{
  ℕ, zero, suc, ◌+◌, List, [], ◌∷◌, Option, none, some, ltb, ◌==◌, if◌then◌else◌, get_elem?, u16,
  ◌>>=◌,
}
use logic_elements.Core.Port.{Source, InputPort}
use logic_elements.Core.Element.{Store}

-- The source of an input port, unless there is none or it is `original`.
abbrev pub source_but : ℕ → Option Source → Option ℕ
source_but original source = do s ← source; if s.element == original then none else some s.element

-- The entry of `orders` for a port. `visit` is `FindOrder(this, &orders[i])` at a source.
abbrev pub port_order : (ℕ → Option ℕ) → ℕ → ℕ → Option Source → Option ℕ
port_order visit original order source = elim (source_but original source) [
  | none ↦ some order
  | some s ↦ visit s
]

-- The loop that fills `orders`.
unfoldable pub source_orders : (ℕ → Option ℕ) → ℕ → ℕ → List InputPort → Option (List ℕ)
source_orders visit original order [] = some []
source_orders visit original order (p ∷ ports) = do
  o ← port_order visit original order p.source
  os ← source_orders visit original order ports
  some (o ∷ os)

-- "Take highest order"
unfoldable pub highest : ℕ → List ℕ → ℕ
highest order [] = order
highest order (o ∷ os) = highest (if ltb order o then o else order) os

abbrev pub inputs_of : {S V : Type 0} → Store S V → ℕ → List InputPort
inputs_of store e = elim (get_elem? store e) [ none ↦ [] | some el ↦ el.inputs ]

module _ {S V : Type 0} where
  -- `FindOrder` on `this`, called from `original`, with the value of `*order` before and after.
  -- `none` says that the recursion is deeper than the fuel.
  unfoldable pub find_order : ℕ → Store S V → ℕ → ℕ → ℕ → Option ℕ
  find_order zero store this original order = none
  find_order (suc fuel) store this original order = do
    let next = u16 (order + 1)
    orders ←
        source_orders (λ s. find_order fuel store s this next) original next (inputs_of store this)
    some (highest next orders)

  -- `GetOrder`.
  unfoldable pub get_order : ℕ → Store S V → ℕ → Option ℕ
  get_order fuel store e = find_order fuel store e e 0
