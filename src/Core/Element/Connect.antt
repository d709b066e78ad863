-- ===== src/Core/Element/Connect.antt =====
-- `Element::Connect`: what it connects, what it refuses, and that the connections stay typed.
use logic_elements.Base.{
  ℕ, ◌≡◌, true, false, some, arith, ◌⊎◌, inl, inr, set, Option-cases, Bool-cases,
}
use logic_elements.Core.Port.{Name, PortType, port_type_eq, InputPort, OutputPort}
use logic_elements.Core.Element.{Element, Store, find_output, find_input, set_source, connect}

eq_of_port_type_eq : (a b : PortType) → port_type_eq a b ≡ true → a ≡ b
eq_of_port_type_eq a b h = ground arith

port_type_eq_refl : (a : PortType) → port_type_eq a a ≡ true
port_type_eq_refl a = ground arith

module _ {S V : Type 0} where
  -- Both ports are there, and of one type.
  pub record Fits (store : Store S V) (out : ℕ) (out_name : Name) (in' : ℕ) (in_name : Name)
      : Type 0 where
    pub place : ℕ
    pub output : OutputPort V
    pub to : Element S V
    pub index : ℕ
    pub input : InputPort
    pub output_found : find_output store out out_name ≡ some (place, output)
    pub input_found : find_input store in' in_name ≡ some (to, index, input)
    pub same_type : output.port_type ≡ input.port_type

  module _ (store : Store S V) (out : ℕ) (out_name : Name) (in' : ℕ) (in_name : Name) where
    -- Where both ports are found and have one type, Connect succeeds, points the input port at the
    -- output port, and changes nothing else.
    pub connect-Fits :
        (f : Fits store out out_name in' in_name)
        → connect store out out_name in' in_name ≡ (
          set store in'
              (set_source f.to f.index f.input (record { element = out; output = f.place })),
          true,
        )
    unfolding connect
    connect-Fits f =
        rw
          (f.output_found, f.input_found, connect, f.same_type, port_type_eq_refl f.input.port_type)

    pub Fits-cases :
        Fits store out out_name in' in_name
        ⊎ (connect store out out_name in' in_name ≡ (store, false))
    unfolding connect
    Fits-cases = elim (Option-cases (find_output store out out_name)) [
      | inl e ↦ inr (rw (e, connect))
      | inr (o, e) ↦ elim (Option-cases (find_input store in' in_name)) [
        | inl e' ↦ inr (rw (e, e', connect))
        | inr (t, e') ↦ elim (Bool-cases (port_type_eq o.1.port_type t.2.port_type)) [
          | inl y ↦ inl (record {
            place = o.0;
            output = o.1;
            to = t.0;
            index = t.1;
            input = t.2;
            output_found = e;
            input_found = e';
            same_type = eq_of_port_type_eq _ _ y;
          })
          | inr z ↦ inr (rw (e, e', connect, z))
        ]
      ]
    ]

    -- Otherwise it fails, and changes nothing.
    pub connect-not_Fits :
        ¬ Fits store out out_name in' in_name
        → connect store out out_name in' in_name ≡ (store, false)
    connect-not_Fits n = elim Fits-cases [ inl f ↦ absurd (n f) | inr e ↦ e ]
