-- ===== src/Examples/Network.antt =====
-- A network of three elements.
use mathlib.Core.List.{Perm, Mem}
use logic_elements.Base.{
  ℕ, zero, suc, ◌+◌, ◌^◌, ◌<◌, ◌≡◌, refl, ◌≢◌, ◌↔◌, Bool, false, List, [], ◌∷◌, ◌++◌, map, Option,
  none, some, inl, inr, arith, All, length, Pairs, ◌==◌, ◌||◌,
}
use logic_elements.Time.{Time}
use logic_elements.Core.Port.{
  Name, digital, InputPort, OutputPort, input_port, output_port, connect_port,
}
use logic_elements.Core.Element.{
  Element, Store, connect, find_output, find_input, get_output_port, get_input_port,
}
use logic_elements.Core.Element.Types.{bytes, and_gate, timer, invalid, parse_element_type}
use logic_elements.Core.Element.Types.Names.{name_of, parse_element_type_iff}
use logic_elements.Core.Element.Typed.{IsTyped, unconnected-IsTyped}
use logic_elements.Core.Order.{get_order, find_order, source_orders, highest}
use logic_elements.Core.Order.Chain.{IsSource, Longest, get_order-Longest}
use logic_elements.Core.Order.Cycle.{get_order_three_cycle}
use logic_elements.Core.Engine.{
  Engine, Net, element_net, add_input, get_element, add_element, add_net, sort_elements, update,
  Behaviour, find_name, with_orders, sort_by_order, insert_by_order, register, connect_input,
  connect_inputs,
}
use logic_elements.Core.Engine.Text.{c_string, copy_and_clamp, NonZero}
use logic_elements.Core.Engine.Sort.{SourcesFirst, sort_elements-SourcesFirst}
use logic_elements.Core.Engine.Pass.{Settled, sort_elements-update-Settled}
use logic_elements.Core.Engine.Names.{Added, add_element-Added}
use logic_elements.Core.Engine.Taken.{add_element_taken}
use logic_elements.Core.Engine.Placed.{IsPlaced}
use logic_elements.Elements.Gates.{or_update}

abbrev element : List InputPort → Element ℕ Bool
element ports = record {
  element_type = and_gate;
  inputs = ports;
  outputs = output_port false (bytes "output") digital ∷ [];
  state = 0;
}

abbrev wired : ℕ → InputPort
wired s = connect_port (input_port (bytes "input_0") digital) (record { element = s; output = 0 })

-- 0 feeds 1, and 1 feeds 2.
abbrev line : Store ℕ Bool
line = element [] ∷ element (wired 0 ∷ []) ∷ element (wired 1 ∷ []) ∷ []

abbrev same_rank : ℕ → ℕ
same_rank e = e

line_falls : (s e : ℕ) → IsSource line s e → same_rank s < same_rank e
unfolding connect_port
line_falls s zero f = absurd f
line_falls s (suc zero) (inl f) = omega (arith, source 0 s f)
  where
    source : (a s : ℕ) → some a ≡ some s → a ≡ s
    source a s e = cc
line_falls s (suc zero) (inr f) = absurd f
line_falls s (suc (suc zero)) (inl f) = omega (arith, source 1 s f)
  where
    source : (a s : ℕ) → some a ≡ some s → a ≡ s
    source a s e = cc
line_falls s (suc (suc zero)) (inr f) = absurd f
line_falls s (suc (suc (suc e))) f = absurd f

get_order-Longest_example : (n : ℕ) × (get_order 3 line 2 ≡ some (suc n)) × Longest line 2 n
get_order-Longest_example =
    get_order-Longest line same_rank line_falls 3 2 (omega arith) (omega arith)

line_orders :
    (get_order 3 line 0 ≡ some 1) × (get_order 3 line 1 ≡ some 2) × (get_order 3 line 2 ≡ some 3)
unfolding get_order find_order source_orders highest connect_port
line_orders = (refl, refl, refl)

-- The elements in the order that is the worst for an update.
abbrev engine : Engine ℕ Bool
engine = record {
  elements = 2 ∷ 1 ∷ 0 ∷ [];
  elements_by_name = (bytes "A", 0) ∷ (bytes "B", 1) ∷ (bytes "C", 2) ∷ [];
  store = line;
}

abbrev sorted : Engine ℕ Bool
sorted = record engine { elements = 0 ∷ 1 ∷ 2 ∷ [] }

abbrev Small : ℕ → Type 0
Small e = (same_rank e < 3) × (same_rank e + 1 < 2 ^ 16)

engine-Small : All Small engine.elements
engine-Small =
    ((omega arith, omega arith), ((omega arith, omega arith), ((omega arith, omega arith), tt)))

engine_distinct : Pairs ◌≢◌ engine.elements
engine_distinct = ((omega arith, (omega arith, tt)), ((omega arith, tt), (tt, tt)))

sort_elements-SourcesFirst_example :
    (es : List ℕ) × (sort_elements 3 engine ≡ some (record engine { elements = es }))
    × Perm es engine.elements
    × SourcesFirst line es
sort_elements-SourcesFirst_example =
    sort_elements-SourcesFirst engine same_rank 3 line_falls engine-Small engine_distinct

sorted_run : sort_elements 3 engine ≡ some sorted
unfolding sort_elements with_orders sort_by_order insert_by_order get_order find_order source_orders
    highest connect_port
sorted_run = refl

abbrev now : Time
now = record { year = 54; day = 100; hour = 12; minute = 0; second = 0; sub_second = 0 }

-- Every element is an OR of what its ports read.
abbrev with_value : Bool → OutputPort Bool → OutputPort Bool
with_value b o = record o { value = b }

abbrev signal : Option (ℕ × Bool) → Option Bool
signal none = none
signal (some v) = some v.1

abbrev or_behaviour : Behaviour ℕ Bool
or_behaviour time readings el = record el {
  outputs = map (with_value (or_update (map signal readings))) el.outputs;
}

sort_elements-update-Settled_example :
    (g' : Engine ℕ Bool) × (sort_elements 3 engine ≡ some g')
    × Perm g'.elements engine.elements
    × All (Settled or_behaviour now line (update or_behaviour g' now).store) g'.elements
sort_elements-update-Settled_example =
    sort_elements-update-Settled or_behaviour now engine same_rank 3 line_falls engine-Small
      engine_distinct

-- Two elements, not connected yet.
abbrev apart : Store ℕ Bool
apart = element [] ∷ element (input_port (bytes "input_0") digital ∷ []) ∷ []

abbrev apart_engine : Engine ℕ Bool
apart_engine = record {
  elements = 0 ∷ 1 ∷ [];
  elements_by_name = (bytes "A", 0) ∷ (bytes "B", 1) ∷ [];
  store = apart;
}

apart-IsTyped : IsTyped apart
apart-IsTyped = unconnected-IsTyped apart (tt, ((refl, tt), tt))

abbrev net : Net
net = add_input (element_net (bytes "A") (bytes "output")) (bytes "B") (bytes "input_0")

abbrev connected : Engine ℕ Bool
connected = record apart_engine { store = element [] ∷ element (wired 0 ∷ []) ∷ [] }

net_run : add_net 2 apart_engine net ≡ some connected
unfolding add_net get_element find_name connect_inputs connect_input connect find_output find_input
    get_output_port get_input_port sort_elements with_orders sort_by_order insert_by_order get_order
    find_order source_orders highest c_string copy_and_clamp connect_port
net_run = refl

abbrev extended : Engine ℕ Bool
extended = record {
  elements = 0 ∷ 1 ∷ 2 ∷ [];
  elements_by_name = (bytes "C", 2) ∷ apart_engine.elements_by_name;
  store = apart ++ element [] ∷ [];
}

add_run : add_element 2 apart_engine (element []) (bytes "C") ≡ some (extended, 2)
unfolding add_element register find_name sort_elements with_orders sort_by_order insert_by_order
    get_order find_order source_orders highest connect_port
add_run = refl

C_free : get_element apart_engine (bytes "C") ≡ none
unfolding get_element find_name
C_free = refl

add_element-Added_example : Added apart_engine extended (element []) (bytes "C") 2
add_element-Added_example =
    add_element-Added 2 apart_engine extended (element []) (bytes "C") 2 C_free add_run

-- The same name again.
abbrev twice : Engine ℕ Bool
twice = record apart_engine { elements = 0 ∷ 1 ∷ 1 ∷ []; store = apart ++ element [] ∷ [] }

twice_run : add_element 2 apart_engine (element []) (bytes "B") ≡ some (twice, 1)
unfolding add_element register find_name sort_elements with_orders sort_by_order insert_by_order
    get_order find_order source_orders highest connect_port
twice_run = refl

B_taken : get_element apart_engine (bytes "B") ≡ some 1
unfolding get_element find_name
B_taken = refl

apart_engine-IsPlaced : IsPlaced apart_engine
apart_engine-IsPlaced = record {
  named = (omega arith, (omega arith, tt));
  listed = (omega arith, (omega arith, tt));
}

abbrev element_1 : ℕ
element_1 = 1

add_element_taken_example :
    (element_1 ≡ element_1)
    × Perm twice.elements (1 ∷ apart_engine.elements)
    × (twice.elements_by_name ≡ apart_engine.elements_by_name)
    × (twice.store ≡ apart ++ element [] ∷ [])
    × ¬ Mem (length apart) twice.elements
    × ((other : Name) → ¬ (get_element twice other ≡ some (length apart)))
add_element_taken_example =
    add_element_taken 2 apart_engine twice (element []) (bytes "B") 1 1 apart_engine-IsPlaced
      B_taken twice_run

abbrev any_zero : List ℕ → Bool
any_zero [] = false
any_zero (b ∷ bs) = b == 0 || any_zero bs

nonzero : (bs : List ℕ) → any_zero bs ≡ false → NonZero bs
nonzero [] h = tt
nonzero (b ∷ bs) h = (byte b (any_zero bs) h, nonzero bs (others b (any_zero bs) h))
  where
    byte : (b : ℕ) (r : Bool) → (b == 0 || r) ≡ false → b ≢ 0
    byte b r h = ground arith

    others : (b : ℕ) (r : Bool) → (b == 0 || r) ≡ false → r ≡ false
    others b r h = ground arith

parse_element_type_iff_example :
    (parse_element_type (bytes "ElementType::Timer") ≡ timer)
    ↔ (bytes "ElementType::Timer" ≡ bytes (name_of timer))
parse_element_type_iff_example =
    parse_element_type_iff timer (bytes "ElementType::Timer") timer_valid
  where
    timer_valid : timer ≢ invalid
    timer_valid e = cc

-- 0 feeds 1, 1 feeds 2, and 2 feeds 0.
abbrev ring : Store ℕ Bool
ring = element (wired 2 ∷ []) ∷ element (wired 0 ∷ []) ∷ element (wired 1 ∷ []) ∷ []

get_order_three_cycle_example : get_order 1000 ring 0 ≡ none
unfolding connect_port
get_order_three_cycle_example =
    get_order_three_cycle ring 0 2 1 (inl refl) (inl refl) (inl refl) (omega arith) (omega arith)
      (omega arith) 1000
