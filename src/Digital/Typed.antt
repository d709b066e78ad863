-- ===== src/Digital/Typed.antt =====
-- What `Engine::AddElement(ElementTypeDef*)` adds is not connected, and keeps the connections typed.
use native.Mathlib.Decide.{dec_lt}
use logic_elements.Base.{
  ℕ, zero, suc, ◌-◌, ◌<◌, ◌≤◌, ◌≡◌, refl, sym, ap, subst, ◌∙◌, Bool, List, [], ◌∷◌, ◌++◌, map,
  Option, none, some, get_elem?, length, All, arith, inl, inr, Option-cases, some_inj, ◌>>=◌,
  >>=-eq-some,
}
use logic_elements.Time.{Time}
use logic_elements.Core.Port.{Name, PortType, Source, InputPort}
use logic_elements.Core.Element.{Element, Store}
use logic_elements.Core.Element.Types.{
  ElementType, bytes, node_digital, node_analog, node_analog_complex, and_gate, or_gate, not_gate,
  rtrig, ftrig, timer, counter, mux_digital, ser, rect_2_polar, polar_2_rect, complex_2_rect,
  complex_2_polar, rect_2_complex, polar_2_complex, add, subtract, multiply, divide, negate, abs,
  add_complex, subtract_complex, multiply_complex, divide_complex, negate_complex, magnitude,
  mux_analog, mux_analog_complex, phasor_shift, math, analog_1p_winding, analog_3p_winding, pid,
  overcurrent, invalid,
}
use logic_elements.Core.Engine.Text.{c_string}
use logic_elements.Core.Engine.Placed.{IsPlaced, add_element-IsPlaced}
use logic_elements.Core.Element.Typed.{IsTyped, output_type, lt_of_get_elem?}
use logic_elements.Core.Engine.{Engine, sort_elements, register, add_element, find_name}
use logic_elements.Core.Engine.Names.{sort_elements-Perm}
use logic_elements.Core.Node.{FloatOps}
use logic_elements.Digital.{State, Argument, ElementDef, digital_input, construct, add_element_def}

module _ {ℓ} {A : Type ℓ} where
  get_elem?-append_left :
      (xs ys : List A) (i : ℕ) → i < length xs → get_elem? (xs ++ ys) i ≡ get_elem? xs i
  get_elem?-append_left [] ys i h = absurd (omega arith)
  get_elem?-append_left (x ∷ xs) ys zero h = refl
  get_elem?-append_left (x ∷ xs) ys (suc i) h = get_elem?-append_left xs ys i (omega arith)

  get_elem?-append_right :
      (xs ys : List A) (i : ℕ)
      → length xs ≤ i
      → get_elem? (xs ++ ys) i ≡ get_elem? ys (i - length xs)
  get_elem?-append_right [] ys i h = ap (get_elem? ys) (omega arith)
  get_elem?-append_right (x ∷ xs) ys zero h = absurd (omega arith)
  get_elem?-append_right (x ∷ xs) ys (suc i) h =
      get_elem?-append_right xs ys i (omega arith) ∙ ap (get_elem? ys) (omega arith)

no_source :
    (ports : List InputPort) (i : ℕ) (p : InputPort) (s : Source)
    → All (λ q. q.source ≡ none) ports
    → get_elem? ports i ≡ some p
    → p.source ≡ some s
    → ⊥
no_source [] i p s h e f = cc
no_source (q ∷ ports) zero p s h e f =
    absurd (none≢some s (sym h.0 ∙ ap (λ (x : InputPort). x.source) (some_inj e) ∙ f))
  where
    none≢some : (s : Source) → none ≡ some s → ⊥
    none≢some s h = cc
no_source (q ∷ ports) (suc i) p s h e f = no_source ports i p s h.1 e f

module _ {S V : Type 0} where
  abbrev pub Unconnected : Element S V → Type 0
  Unconnected el = All (λ p. p.source ≡ none) el.inputs

  output_type-append :
      (store : Store S V) (el : Element S V) (s : Source) (t : PortType)
      → output_type store s ≡ some t
      → output_type (store ++ el ∷ []) s ≡ some t
  unfolding output_type
  output_type-append store el s t h =
      let (from, e, h') = >>=-eq-some (get_elem? store s.element) _ h in
      let same =
        get_elem?-append_left store (el ∷ []) s.element (lt_of_get_elem? store s.element e) in
      ap
        (λ (o : Option (Element S V)).
          o >>= λ x. get_elem? x.outputs s.output >>= λ out. some out.port_type)
        same
      ∙ h

  -- One more element that is not connected keeps a store typed.
  append-IsTyped :
      (store : Store S V) (el : Element S V)
      → IsTyped store
      → Unconnected el
      → IsTyped (store ++ el ∷ [])
  append-IsTyped store el typed free e i x p he hp s hs = elim (dec_lt e (length store)) [
    | yes small ↦
        output_type-append store el s p.port_type
          (typed e i x p (sym (get_elem?-append_left store (el ∷ []) e small) ∙ he) hp s hs)
    | no large ↦
        let last = sym (get_elem?-append_right store (el ∷ []) e (omega arith)) ∙ he in
        absurd (at_last (e - length store) x i p s last hp hs)
  ]
    where
      at_last :
          (k : ℕ) (x : Element S V) (i : ℕ) (p : InputPort) (s : Source)
          → get_elem? (el ∷ []) k ≡ some x
          → get_elem? x.inputs i ≡ some p
          → p.source ≡ some s
          → ⊥
      at_last zero x i p s h hp hs =
          no_source el.inputs i p s free
            (ap (λ (y : Element S V). get_elem? y.inputs i) (some_inj h) ∙ hp) hs
      at_last (suc k) x i p s h hp hs = cc

  register-IsTyped :
      (g : Engine S V) (el : Element S V) (name : Name)
      → IsTyped g.store
      → Unconnected el
      → IsTyped (register g el name).0.store
  unfolding register
  register-IsTyped g el name typed free = elim (Option-cases (find_name g.elements_by_name name)) [
    | inl n ↦ rw (n, register) (append-IsTyped g.store el typed free)
    | inr (e, s) ↦ rw (s, register) (append-IsTyped g.store el typed free)
  ]

  add_element-IsTyped :
      (fuel : ℕ) (g g' : Engine S V) (el : Element S V) (name : Name) (e : ℕ)
      → IsTyped g.store
      → Unconnected el
      → add_element fuel g el name ≡ some (g', e)
      → IsTyped g'.store
  unfolding add_element
  add_element-IsTyped fuel g g' el name e typed free h =
      let placed = (register g el name).0 in
      let (sorted, e1, h1) = >>=-eq-some (sort_elements fuel placed) _ h in
      let same : sorted ≡ g' = ap (λ (r : Engine S V × ℕ). r.0) (some_inj h1) in
      let (es, g'-eq, perm) = sort_elements-Perm fuel placed g' (e1 ∙ ap some same) in
      subst (λ (r : Engine S V). IsTyped r.store) (sym g'-eq)
        (register-IsTyped g el name typed free)

module _ {F : Type 0} (ops : FloatOps F) where
  inputs-Unconnected : (names : List Name) → All (λ p. p.source ≡ none) (map digital_input names)
  inputs-Unconnected [] = tt
  inputs-Unconnected (n ∷ names) = (refl, inputs-Unconnected names)

  no_element : (el : Element (State F) Bool) → none ≡ some el → ⊥
  no_element el h = cc

  construct-Unconnected :
      (now : Time) (node_length : ℕ) (t : ElementType) (args : ℕ → Argument F)
      (el : Element (State F) Bool)
      → construct ops now node_length t args ≡ some el
      → Unconnected el
  unfolding construct
  construct-Unconnected now node_length node_digital args el h =
      subst Unconnected (some_inj h) (inputs-Unconnected (bytes "input" ∷ []))
  construct-Unconnected now node_length node_analog args el h = absurd (no_element el h)
  construct-Unconnected now node_length node_analog_complex args el h = absurd (no_element el h)
  construct-Unconnected now node_length and_gate args el h =
      subst Unconnected (some_inj h) (inputs-Unconnected _)
  construct-Unconnected now node_length or_gate args el h =
      subst Unconnected (some_inj h) (inputs-Unconnected _)
  construct-Unconnected now node_length not_gate args el h =
      subst Unconnected (some_inj h) (inputs-Unconnected (bytes "input" ∷ []))
  construct-Unconnected now node_length rtrig args el h =
      subst Unconnected (some_inj h) (inputs-Unconnected (bytes "input" ∷ []))
  construct-Unconnected now node_length ftrig args el h =
      subst Unconnected (some_inj h) (inputs-Unconnected (bytes "input" ∷ []))
  construct-Unconnected now node_length timer args el h =
      subst Unconnected (some_inj h) (inputs-Unconnected (bytes "input" ∷ []))
  construct-Unconnected now node_length counter args el h =
      subst Unconnected (some_inj h) (inputs-Unconnected (bytes "count_up" ∷ bytes "reset" ∷ []))
  construct-Unconnected now node_length mux_digital args el h =
      subst Unconnected (some_inj h) (inputs-Unconnected _)
  construct-Unconnected now node_length ser args el h =
      subst Unconnected (some_inj h) (inputs-Unconnected _)
  construct-Unconnected now node_length rect_2_polar args el h = absurd (no_element el h)
  construct-Unconnected now node_length polar_2_rect args el h = absurd (no_element el h)
  construct-Unconnected now node_length complex_2_rect args el h = absurd (no_element el h)
  construct-Unconnected now node_length complex_2_polar args el h = absurd (no_element el h)
  construct-Unconnected now node_length rect_2_complex args el h = absurd (no_element el h)
  construct-Unconnected now node_length polar_2_complex args el h = absurd (no_element el h)
  construct-Unconnected now node_length add args el h = absurd (no_element el h)
  construct-Unconnected now node_length subtract args el h = absurd (no_element el h)
  construct-Unconnected now node_length multiply args el h = absurd (no_element el h)
  construct-Unconnected now node_length divide args el h = absurd (no_element el h)
  construct-Unconnected now node_length negate args el h = absurd (no_element el h)
  construct-Unconnected now node_length abs args el h = absurd (no_element el h)
  construct-Unconnected now node_length add_complex args el h = absurd (no_element el h)
  construct-Unconnected now node_length subtract_complex args el h = absurd (no_element el h)
  construct-Unconnected now node_length multiply_complex args el h = absurd (no_element el h)
  construct-Unconnected now node_length divide_complex args el h = absurd (no_element el h)
  construct-Unconnected now node_length negate_complex args el h = absurd (no_element el h)
  construct-Unconnected now node_length magnitude args el h = absurd (no_element el h)
  construct-Unconnected now node_length mux_analog args el h = absurd (no_element el h)
  construct-Unconnected now node_length mux_analog_complex args el h = absurd (no_element el h)
  construct-Unconnected now node_length phasor_shift args el h = absurd (no_element el h)
  construct-Unconnected now node_length math args el h = absurd (no_element el h)
  construct-Unconnected now node_length analog_1p_winding args el h = absurd (no_element el h)
  construct-Unconnected now node_length analog_3p_winding args el h = absurd (no_element el h)
  construct-Unconnected now node_length pid args el h = absurd (no_element el h)
  construct-Unconnected now node_length overcurrent args el h = absurd (no_element el h)
  construct-Unconnected now node_length invalid args el h = absurd (no_element el h)

  -- Where adding an element from its definition to a digital engine ends and the connections were
  -- typed (every connected input port points at an existing output port of its type), they are
  -- typed afterwards, whatever the type, the name and the arguments of the definition and the float
  -- operations.
  pub add_element_def-IsTyped :
      (fuel : ℕ) (now : Time) (node_length : ℕ) (g g' : Engine (State F) Bool) (def : ElementDef F)
      (e : Option ℕ)
      → IsTyped g.store
      → add_element_def ops fuel now node_length g def ≡ some (g', e)
      → IsTyped g'.store
  unfolding add_element_def
  add_element_def-IsTyped fuel now node_length g g' def e typed h =
      elim (Option-cases (construct ops now node_length def.element_type def.args)) [
        | inl n ↦
            let run : add_element_def ops fuel now node_length g def ≡ some (g, none) =
              rw (n, add_element_def) refl in
            subst (λ (r : Engine (State F) Bool). IsTyped r.store)
              (ap (λ (r : Engine (State F) Bool × Option ℕ). r.0) (some_inj (sym run ∙ h))) typed
        | inr (el, s) ↦
            let run : add_element_def ops fuel now node_length g def ≡ (
                add_element fuel g el (c_string def.name) >>= λ added.
                some (added.0, some added.1)) =
              rw (s, add_element_def) refl in
            let (added, e1, h1) =
              >>=-eq-some (add_element fuel g el (c_string def.name)) _ (sym run ∙ h) in
            subst (λ (r : Engine (State F) Bool). IsTyped r.store)
              (ap (λ (r : Engine (State F) Bool × Option ℕ). r.0) (some_inj h1))
              (add_element-IsTyped fuel g added.0 el (c_string def.name) added.1 typed
                (construct-Unconnected now node_length def.element_type def.args el s) e1)
      ]

  -- The same for the places that the names and the list lead to.
  pub add_element_def-IsPlaced :
      (fuel : ℕ) (now : Time) (node_length : ℕ) (g g' : Engine (State F) Bool) (def : ElementDef F)
      (e : Option ℕ)
      → IsPlaced g
      → add_element_def ops fuel now node_length g def ≡ some (g', e)
      → IsPlaced g'
  unfolding add_element_def
  add_element_def-IsPlaced fuel now node_length g g' def e placed h =
      elim (Option-cases (construct ops now node_length def.element_type def.args)) [
        | inl n ↦
            let run : add_element_def ops fuel now node_length g def ≡ some (g, none) =
              rw (n, add_element_def) refl in
            subst IsPlaced
              (ap (λ (r : Engine (State F) Bool × Option ℕ). r.0) (some_inj (sym run ∙ h))) placed
        | inr (el, s) ↦
            let run : add_element_def ops fuel now node_length g def ≡ (
                add_element fuel g el (c_string def.name) >>= λ added.
                some (added.0, some added.1)) =
              rw (s, add_element_def) refl in
            let (added, e1, h1) =
              >>=-eq-some (add_element fuel g el (c_string def.name)) _ (sym run ∙ h) in
            subst IsPlaced (ap (λ (r : Engine (State F) Bool × Option ℕ). r.0) (some_inj h1))
              (add_element-IsPlaced fuel g added.0 el (c_string def.name) added.1 placed e1)
      ]
