-- ===== src/Digital/Gates.antt =====
-- A network of digital elements: what the gates show after one update pass.
use logic_elements.Base.{
  ℕ, ◌≡◌, refl, ap, subst, ◌∙◌, Bool, List, [], ◌∷◌, map, Option, some, get_elem?, All, inl, inr,
  ◌⊎◌, ◌>>=◌, true, ◌↔◌,
}
use logic_elements.Time.{Time}
use logic_elements.Core.Port.{OutputPort}
use logic_elements.Core.Element.{Element, Store}
use logic_elements.Core.Engine.{Engine, read_input, update}
use logic_elements.Core.Engine.Sort.{SourcesFirst}
use logic_elements.Core.Engine.Pass.{Settled, update-Settled}
use logic_elements.Core.Node.{FloatOps}
use logic_elements.Elements.Gates.{and_update, AllTrue, and_update_iff}
use logic_elements.Digital.{State, and_state, signal, set_outputs, output_values, step, behave}

abbrev pub Among : ℕ → List ℕ → Type 0
Among e [] = ⊥
Among e (x ∷ xs) = (x ≡ e) ⊎ Among e xs

All-Among : (P : ℕ → Type 0) (xs : List ℕ) (e : ℕ) → All P xs → Among e xs → P e
All-Among P [] e h a = absurd a
All-Among P (x ∷ xs) e (h, hs) (inl q) = subst P q h
All-Among P (x ∷ xs) e (h, hs) (inr a) = All-Among P xs e hs a

module _ {F : Type 0} (ops : FloatOps F) where
  -- The values that the ports of an element read.
  abbrev pub signals : Store (State F) Bool → Element (State F) Bool → List (Option Bool)
  signals store el = map signal (map (read_input store) el.inputs)

  -- The value of the first output port of an element.
  abbrev pub first_output : Store (State F) Bool → ℕ → Option Bool
  first_output store e = do el ← get_elem? store e; o ← get_elem? el.outputs 0; some o.value

  update-element :
      (g : Engine (State F) Bool) (now : Time) (e : ℕ) (el : Element (State F) Bool)
      → SourcesFirst g.store g.elements
      → Among e g.elements
      → get_elem? g.store e ≡ some el
      → get_elem? (update (behave ops) g now).store e
        ≡ some (behave ops now (map (read_input (update (behave ops) g now).store) el.inputs) el)
  update-element g now e el first among at =
      All-Among (Settled (behave ops) now g.store (update (behave ops) g now).store) g.elements e
        (update-Settled (behave ops) now g first) among
      ∙ ap
          (λ (o : Option (Element (State F) Bool)). o >>= λ x.
            some (behave ops now (map (read_input (update (behave ops) g now).store) x.inputs) x))
          at

  gate-value :
      (now : Time) (readings : List (Option (ℕ × Bool))) (el : Element (State F) Bool)
      (o : OutputPort Bool) (s : State F) (v : Bool)
      → el.outputs ≡ o ∷ []
      → el.state ≡ s
      → ((step ops s now el.inputs readings (output_values el.outputs)).1 ≡ v ∷ [])
      → (get_elem? (behave ops now readings el).outputs 0 >>= λ p. some p.value) ≡ some v
  unfolding behave
  gate-value now readings el o s v one st value =
      let values : (step ops el.state now el.inputs readings (output_values el.outputs)).1
          ≡ v ∷ [] =
        ap (λ (x : State F). (step ops x now el.inputs readings (output_values el.outputs)).1) st
        ∙ value in
      ap (λ (vs : List Bool). get_elem? (set_outputs el.outputs vs) 0 >>= λ p. some p.value) values
      ∙ ap
          (λ (os : List (OutputPort Bool)).
            get_elem? (set_outputs os (v ∷ [])) 0 >>= λ p. some p.value)
          one

  -- In a digital engine where no element is listed twice, reads itself or stands before one of its
  -- sources, after one update pass the output port of a listed AND element with one output port has
  -- a value that is true exactly if every connected input port of the element reads true after the
  -- pass, for any float operations.
  pub first_output-update_and :
      (g : Engine (State F) Bool) (now : Time) (e : ℕ) (el : Element (State F) Bool)
      (o : OutputPort Bool)
      → SourcesFirst g.store g.elements
      → Among e g.elements
      → get_elem? g.store e ≡ some el
      → el.state ≡ and_state
      → el.outputs ≡ o ∷ []
      → let after = (update (behave ops) g now).store in
        (v : Bool) × (first_output after e ≡ some v) × ((v ≡ true) ↔ AllTrue (signals after el))
  unfolding step
  first_output-update_and g now e el o first among at st one =
      let after = (update (behave ops) g now).store in
      (
        and_update (signals after el),
        ap
              (λ (x : Option (Element (State F) Bool)).
                x >>= λ y. get_elem? y.outputs 0 >>= λ p. some p.value)
              (update-element g now e el first among at)
            ∙ gate-value now (map (read_input after) el.inputs) el o and_state
                (and_update (signals after el)) one st refl,
        and_update_iff (signals after el),
      )
