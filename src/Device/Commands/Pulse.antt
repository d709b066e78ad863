-- ===== src/Device/Commands/Pulse.antt =====
-- The commands that read or override an element: PULSE and TARGET.
use logic_elements.Base.{
  ℕ, zero, suc, ◌-◌, ◌≡◌, refl, ap, ◌∙◌, Bool, true, false, List, [], ◌∷◌, ◌++◌, map, Option, some,
  get_elem?, set, take, ◌>>=◌, if◌then◌else◌, if_true, if_false, ◌==◌, arith,
}
use logic_elements.Core.Port.{Name}
use logic_elements.Core.Element.{Element}
use logic_elements.Core.Element.Types.{bytes, node_digital}
use logic_elements.Core.Engine.{Engine, get_element}
use logic_elements.Core.Node.{FloatOps, Node, override_node}
use logic_elements.Digital.{State, node_state}
use logic_elements.Communication.Comms.{req_pulse}
use logic_elements.Device.Commands.{
  Message, Surroundings, bad_message, crlf, execute, pulse_found, pulse_element, pulse_state,
  paired, is_node_type, target_loop, target_line,
}

module _ {F : Type 0} (ops : FloatOps F) (byte_as_bool : F → Bool) where
  -- The engine with the fields of one element replaced.
  abbrev pub with_state :
      Engine (State F) Bool → ℕ → Element (State F) Bool → State F → Engine (State F) Bool
  with_state g e el s = record g { store = set g.store e (record el { state = s }) }

  pulse_element-node :
      (g : Engine (State F) Bool) (name : Name) (e : ℕ) (el : Element (State F) Bool)
      (n : Node Bool F) (value duration : F)
      → el.element_type ≡ node_digital
      → el.state ≡ node_state n
      → pulse_element ops byte_as_bool g name e el value duration
        ≡ some (
          with_state g e el (node_state (override_node ops n (byte_as_bool value) duration)),
          bad_message (bytes "Pulse command executed" ++ crlf) ∷ [],
        )
  unfolding pulse_element pulse_state
  pulse_element-node g name e el n value duration is_node state =
      if_true (is_node_type el.element_type) _ _ (ap is_node_type is_node)
      ∙ ap
          (λ (st : State F). pulse_state ops byte_as_bool st value duration >>= λ s.
            let r : Engine (State F) Bool × List Message =
              (with_state g e el s, bad_message (bytes "Pulse command executed" ++ crlf) ∷ []) in
            some r)
          state

  -- PULSE of a digital node overrides its value.
  pub execute-pulse :
      (w : Surroundings) (g : Engine (State F) Bool) (name : Name) (value duration : F) (e : ℕ)
      (el : Element (State F) Bool) (n : Node Bool F)
      → get_element g name ≡ some e
      → get_elem? g.store e ≡ some el
      → el.element_type ≡ node_digital
      → el.state ≡ node_state n
      → execute ops byte_as_bool w (some g) (req_pulse name value duration)
        ≡ some (
          some (with_state g e el (node_state (override_node ops n (byte_as_bool value) duration))),
          bad_message (bytes "Pulse command executed" ++ crlf) ∷ [],
        )
  unfolding execute pulse_found
  execute-pulse w g name value duration e el n found at is_node state =
      let step : Option (Engine (State F) Bool × List Message)
          → Option (Option (Engine (State F) Bool) × List Message) =
        λ (r : Option (Engine (State F) Bool × List Message)). r >>= λ x. paired (some x.0) x.1 in
      ap (λ (o : Option ℕ). step (pulse_found ops byte_as_bool g name o value duration)) found
      ∙ ap
          (λ (o : Option (Element (State F) Bool)).
            step (o >>= λ x. pulse_element ops byte_as_bool g name e x value duration))
          at
      ∙ ap step (pulse_element-node g name e el n value duration is_node state)

suc_test : (r : ℕ) → (suc r == 0) ≡ false
suc_test r = ground arith

-- The values before the first round in which the escape key was requested.
abbrev pub until_escape : List (Bool × Bool) → List Bool
until_escape [] = []
until_escape ((escape, value) ∷ rounds) = if escape then [] else value ∷ until_escape rounds

-- TARGET shows the values up to the escape key, as often as it was asked to at most.
pub target_loop-until_escape :
    (name : Name) (repetition : ℕ) (rounds : List (Bool × Bool))
    → target_loop name repetition rounds
      ≡ map (target_line name) (take repetition (until_escape rounds))
unfolding target_loop
target_loop-until_escape name zero [] = refl
target_loop-until_escape name (suc r) [] = refl
target_loop-until_escape name zero (round ∷ rounds) = refl
target_loop-until_escape name (suc r) ((true, value) ∷ rounds) =
    if_false (suc r == 0) _ _ (suc_test r)
target_loop-until_escape name (suc r) ((false, value) ∷ rounds) =
    let back : suc r - 1 ≡ r = omega arith in
    if_false (suc r == 0) _ _ (suc_test r)
    ∙ ap (λ (k : ℕ). target_line name value ∷ target_loop name k rounds) back
    ∙ ap (λ (l : List Message). target_line name value ∷ l) (target_loop-until_escape name r rounds)
