-- ===== src/Core/Port.antt =====
-- src/LogicElements/include/Core/le_Port.hpp: typed ports, for any type `V` of values.
-- A pointer to an output port is the place of its element in the store, and the port's place among
-- that element's outputs; so a port's owner is not a field.
use logic_elements.Base.{
  ℕ, Bool, true, false, ◌&&◌, List, [], ◌∷◌, Option, none, some, ◌==◌, ◌≡◌, refl, arith,
}

-- A `std::string`: its bytes.
abbrev pub Name : Type 0
Name = List ℕ

abbrev pub name_eq : Name → Name → Bool
name_eq [] [] = true
name_eq [] (y ∷ ys) = false
name_eq (x ∷ xs) [] = false
name_eq (x ∷ xs) (y ∷ ys) = x == y && name_eq xs ys

pub name_eq_refl : (n : Name) → name_eq n n ≡ true
name_eq_refl [] = refl
name_eq_refl (x ∷ xs) = ground (arith, name_eq_refl xs)

pub eq_of_name_eq : (n m : Name) → name_eq n m ≡ true → n ≡ m
eq_of_name_eq [] [] h = refl
eq_of_name_eq [] (y ∷ ys) h = cc
eq_of_name_eq (x ∷ xs) [] h = cc
eq_of_name_eq (x ∷ xs) (y ∷ ys) h = ground (arith, eq_of_name_eq xs ys)

-- `PortType`
pub data PortType : Type 0 where
  digital analog complex : PortType

abbrev pub port_type_eq : PortType → PortType → Bool
port_type_eq digital digital = true
port_type_eq analog analog = true
port_type_eq complex complex = true
port_type_eq _ _ = false

-- An `OutputPort<T>*`.
pub record Source : Type 0 where
  pub element : ℕ
  pub output : ℕ

-- `InputPort<T>`; `source` is `pSource`.
pub record InputPort : Type 0 where
  pub name : Name
  pub port_type : PortType
  pub source : Option Source

-- `OutputPort<T>`
pub record OutputPort (V : Type 0) : Type 0 where
  pub name : Name
  pub port_type : PortType
  pub value : V

-- The constructors.
abbrev pub input_port : Name → PortType → InputPort
input_port name port_type = record { name = name; port_type = port_type; source = none }

-- `zero_value` is `static_cast<T>(0)`.
abbrev pub output_port : {V : Type 0} → V → Name → PortType → OutputPort V
output_port zero_value name port_type = record {
  name = name;
  port_type = port_type;
  value = zero_value;
}

-- `InputPort::Connect`, `Disconnect` and `IsConnected`.
unfoldable pub connect_port : InputPort → Source → InputPort
connect_port p source = record p { source = some source }

unfoldable pub disconnect_port : InputPort → InputPort
disconnect_port p = record p { source = none }

unfoldable pub is_connected : InputPort → Bool
is_connected p = elim p.source [ none ↦ false | some s ↦ true ]
