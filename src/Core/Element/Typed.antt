-- ===== src/Core/Element/Typed.antt =====
-- Connections stay typed: a connected input port points at an output port that is there, and that
-- has its type.
use native.Mathlib.Decide.{ℕ_discrete}
use logic_elements.Base.{
  some_inj, All, ℕ, zero, suc, ◌<◌, ◌≡◌, sym, ap, ap₂, ◌∙◌, List, [], ◌∷◌, Option, none, some,
  arith, inl, inr, get_elem?, set, length, >>=-eq-some, get_elem?-set_self, get_elem?-set_ne, ◌>>=◌,
  subst,
}
use logic_elements.Core.Port.{Name, PortType, Source, InputPort, OutputPort, connect_port}
use logic_elements.Core.Element.{
  get_input_port, get_output_port, Element, Store, find_output, find_input, set_source, connect,
}
use logic_elements.Core.Element.Connect.{Fits, connect-Fits, Fits-cases}

module _ {ℓ} {A : Type ℓ} where
  pub lt_of_get_elem? : (xs : List A) (i : ℕ) {x : A} → get_elem? xs i ≡ some x → i < length xs
  lt_of_get_elem? [] i h = cc
  lt_of_get_elem? (x ∷ xs) zero h = omega arith
  lt_of_get_elem? (x ∷ xs) (suc i) h = omega (arith, lt_of_get_elem? xs i h)

  pub All-get_elem? :
      (P : A → Type 0) (xs : List A) (i : ℕ) (x : A) → All P xs → get_elem? xs i ≡ some x → P x
  All-get_elem? P [] i x h e = cc
  All-get_elem? P (y ∷ xs) zero x h e = subst P (some_inj e) h.0
  All-get_elem? P (y ∷ xs) (suc i) x h e = All-get_elem? P xs i x h.1 e

module _ {S V : Type 0} where
  -- The type of the output port that a pointer leads to, if there is one.
  unfoldable pub output_type : Store S V → Source → Option PortType
  output_type store s = do
    from ← get_elem? store s.element
    output ← get_elem? from.outputs s.output
    some output.port_type

  abbrev pub TypedInput : Store S V → InputPort → Type 0
  TypedInput store p = (s : Source) → p.source ≡ some s → output_type store s ≡ some p.port_type

  abbrev pub IsTyped : Store S V → Type 0
  IsTyped store =
      (e i : ℕ) (el : Element S V) (p : InputPort)
      → get_elem? store e ≡ some el
      → get_elem? el.inputs i ≡ some p
      → TypedInput store p

  -- Where no port is connected, everything is typed.
  pub unconnected-IsTyped :
      (store : Store S V) → All (λ el. All (λ p. p.source ≡ none) el.inputs) store → IsTyped store
  unconnected-IsTyped store h e i el p he hp s hs = absurd (
      none≢some s (
        sym (
          All-get_elem? (λ q. q.source ≡ none) el.inputs i p
            (All-get_elem? (λ x. All (λ q. q.source ≡ none) x.inputs) store e el h he) hp)
        ∙ hs))
    where
      none≢some : (s : Source) → none ≡ some s → ⊥
      none≢some s e = cc

  -- Changing inputs of one element changes no output's type.
  output_type-set :
      (store : Store S V) (e : ℕ) (to : Element S V) (inputs : List InputPort) (s : Source)
      → get_elem? store e ≡ some to
      → output_type (set store e (record to { inputs = inputs })) s ≡ output_type store s
  unfolding output_type
  output_type-set store e to inputs s h = elim (ℕ_discrete e s.element) [
    | yes q ↦ rw (
      ← q,
      get_elem?-set_self store e (record to { inputs = inputs }) (lt_of_get_elem? store e h),
      h,
    )
    | no n ↦ rw (get_elem?-set_ne store (record to { inputs = inputs }) n)
  ]

  find_input-found :
      (store : Store S V) (e : ℕ) (name : Name) (to : Element S V) (i : ℕ) (p : InputPort)
      → find_input store e name ≡ some (to, i, p)
      → (get_elem? store e ≡ some to) × (get_elem? to.inputs i ≡ some p)
  unfolding find_input
  find_input-found store e name to i p h =
      let (t, e1, h1) = >>=-eq-some (get_elem? store e) _ h in
      let (j, e2, h2) = >>=-eq-some (get_input_port t.inputs name) _ h1 in
      let (q, e3, h3) = >>=-eq-some (get_elem? t.inputs j) _ h2 in
      let same : t ≡ to = cc in
      (
        e1 ∙ ap some same,
        ap₂ get_elem? (ap (λ (x : Element S V). x.inputs) (sym same)) (cc) ∙ e3 ∙ cc,
      )

  find_output-found :
      (store : Store S V) (e : ℕ) (name : Name) (k : ℕ) (o : OutputPort V)
      → find_output store e name ≡ some (k, o)
      → output_type store (record { element = e; output = k }) ≡ some o.port_type
  unfolding find_output output_type
  find_output-found store e name k o h =
      let (t, e1, h1) = >>=-eq-some (get_elem? store e) _ h in
      let (j, e2, h2) = >>=-eq-some (get_output_port t.outputs name) _ h1 in
      let (q, e3, h3) = >>=-eq-some (get_elem? t.outputs j) _ h2 in
      let place : j ≡ k = cc in let port : q ≡ o = cc in rw (e1, ← place, e3, port)

  set-TypedInput :
      (store : Store S V) (e : ℕ) (to : Element S V) (inputs : List InputPort) (p : InputPort)
      → get_elem? store e ≡ some to
      → TypedInput store p
      → TypedInput (set store e (record to { inputs = inputs })) p
  set-TypedInput store e to inputs p h t s eq = output_type-set store e to inputs s h ∙ t s eq

  module _ (store : Store S V) (out : ℕ) (out_name : Name) (in' : ℕ) (in_name : Name)
      (typed : IsTyped store) where
    connected-TypedInput :
        (f : Fits store out out_name in' in_name)
        → TypedInput store (connect_port f.input (record { element = out; output = f.place }))
    unfolding connect_port
    connected-TypedInput f s eq =
        let from : record { element = out; output = f.place } ≡ s = cc in
        subst (λ (r : Source). output_type store r ≡ some f.input.port_type) from
          (find_output-found store out out_name f.place f.output f.output_found
            ∙ ap some f.same_type)

    inputs-TypedInput :
        (f : Fits store out out_name in' in_name) (i : ℕ) (p : InputPort)
        → get_elem?
            (set f.to.inputs f.index
              (connect_port f.input (record { element = out; output = f.place })))
            i
          ≡ some p
        → TypedInput store p
    inputs-TypedInput f i p h =
        let (to_at, input_at) =
          find_input-found store in' in_name f.to f.index f.input f.input_found in
        elim (ℕ_discrete f.index i) [
          | yes q ↦
              let source : Source = record { element = out; output = f.place } in
              let same : some (connect_port f.input source) ≡ some p =
                sym (
                  get_elem?-set_self f.to.inputs f.index (connect_port f.input source)
                    (lt_of_get_elem? f.to.inputs f.index input_at))
                ∙ ap (get_elem? (set f.to.inputs f.index (connect_port f.input source))) q
                ∙ h in
              subst (TypedInput store) (some_inj same) (connected-TypedInput f)
          | no n ↦ typed in' i f.to p to_at (sym (get_elem?-set_ne f.to.inputs _ n) ∙ h)
        ]

    stays :
        (f : Fits store out out_name in' in_name)
        → IsTyped (
            set store in'
              (set_source f.to f.index f.input (record { element = out; output = f.place })))
    stays f e i el p he hp =
        let source : Source = record { element = out; output = f.place } in
        let (to_at, input_at) =
          find_input-found store in' in_name f.to f.index f.input f.input_found in
        let inputs = set f.to.inputs f.index (connect_port f.input source) in
        set-TypedInput store in' f.to inputs p to_at (elim (ℕ_discrete in' e) [
          | yes q ↦
              let same : some (set_source f.to f.index f.input source) ≡ some el =
                sym (
                  get_elem?-set_self store in' (set_source f.to f.index f.input source)
                    (lt_of_get_elem? store in' to_at))
                ∙ ap (get_elem? (set store in' (set_source f.to f.index f.input source))) q
                ∙ he in
              inputs-TypedInput f i p
                (ap (λ (x : Element S V). get_elem? x.inputs i) (some_inj same) ∙ hp)
          | no n ↦ typed e i el p (sym (get_elem?-set_ne store _ n) ∙ he) hp
        ])

    -- Where every connected input port points at an output port that is there and that has its
    -- type, this still holds after a call of Connect, whether the call succeeds or not.
    pub connect-IsTyped : IsTyped (connect store out out_name in' in_name).0
    connect-IsTyped = elim (Fits-cases store out out_name in' in_name) [
      | inl f ↦ rw (connect-Fits store out out_name in' in_name f) (stays f)
      | inr e ↦ rw e typed
    ]
