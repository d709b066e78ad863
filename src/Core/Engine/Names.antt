-- ===== src/Core/Engine/Names.antt =====
-- `Engine::AddElement(Element*, name)` and `Engine::AddNet`: the names, the list of elements and the connections
-- that they leave.
use mathlib.Core.List.{Perm, perm_append_comm}
use mathlib.Core.List.Perm
use logic_elements.Base.{
  ℕ, ◌≡◌, refl, sym, ap, ap₂, subst, ◌∙◌, List, [], ◌∷◌, ◌++◌, map, none, some, if◌then◌else◌, inl,
  inr, Option-cases, some_inj, ◌>>=◌, >>=-eq-some, length, get_elem?, take, u16,
}
use logic_elements.Core.Port.{Name, name_eq}
use logic_elements.Core.Element.{Element, Store}
use logic_elements.Core.Element.Typed.{IsTyped, connect-IsTyped}
use logic_elements.Core.Order.{get_order}
use logic_elements.Core.Engine.{
  Engine, NetConnection, Net, find_name, sort_by_order, with_orders, sort_elements, get_element,
  register, add_element, connect_input, connect_inputs, add_net,
}
use logic_elements.Core.Engine.Text.{c_string}
use logic_elements.Core.Engine.Sort.{sort_by_order-Perm}

module _ {S V : Type 0} where
  with_orders-keys :
      (fuel : ℕ) (store : Store S V) (es : List ℕ) (ks : List (ℕ × ℕ))
      → with_orders fuel store es ≡ some ks
      → map (λ x. x.1) ks ≡ es
  unfolding with_orders
  with_orders-keys fuel store [] ks h =
      ap (λ (l : List (ℕ × ℕ)). map (λ x. x.1) l) (sym (some_inj h))
  with_orders-keys fuel store (e ∷ es) ks h =
      let (o, e1, h1) = >>=-eq-some (get_order fuel store e) _ h in
      let (rest, e2, h2) = >>=-eq-some (with_orders fuel store es) _ h1 in
      ap (λ (l : List (ℕ × ℕ)). map (λ x. x.1) l) (sym (some_inj h2))
      ∙ ap (λ (l : List ℕ). e ∷ l) (with_orders-keys fuel store es rest e2)

  -- Whatever the connections are, sorting that ends only rearranges the list.
  pub sort_elements-Perm :
      (fuel : ℕ) (g g' : Engine S V)
      → sort_elements fuel g ≡ some g'
      → (es : List ℕ) × (g' ≡ record g { elements = es }) × Perm es g.elements
  unfolding sort_elements
  sort_elements-Perm fuel g g' h =
      let (ks, e1, h1) = >>=-eq-some (with_orders fuel g.store g.elements) _ h in
      (
        map (λ x. x.1) (sort_by_order ks),
        sym (some_inj h1),
        subst (Perm (map (λ x. x.1) (sort_by_order ks)))
            (with_orders-keys fuel g.store g.elements ks e1)
            (Perm.map (λ x. x.1) (sort_by_order-Perm ks)),
      )

  get_elem?-append_last :
      (xs : List (Element S V)) (x : Element S V) → get_elem? (xs ++ x ∷ []) (length xs) ≡ some x
  get_elem?-append_last [] x = refl
  get_elem?-append_last (y ∷ xs) x = get_elem?-append_last xs x

  -- The engine after an element is added under a name that was free.
  pub record Added (g g' : Engine S V) (el : Element S V) (name : Name) (e : ℕ) : Type 0 where
    pub names :
        (other : Name)
        → get_element g' other ≡ (if name_eq name other then some e else get_element g other)
    pub stored : get_elem? g'.store e ≡ some el
    pub listed : Perm g'.elements (e ∷ g.elements)

  -- Where adding an element under a name that is free ends, the returned place holds the element,
  -- the name finds that place, every other name finds what it found before, and the list of
  -- elements has that one more entry, up to its order.
  pub add_element-Added :
      (fuel : ℕ) (g g' : Engine S V) (el : Element S V) (name : Name) (e : ℕ)
      → get_element g name ≡ none
      → add_element fuel g el name ≡ some (g', e)
      → Added g g' el name e
  unfolding add_element register get_element find_name
  add_element-Added fuel g g' el name e free h =
      let fresh = length g.store in
      let placed : Engine S V = record {
        elements = g.elements ++ fresh ∷ [];
        elements_by_name = (name, fresh) ∷ g.elements_by_name;
        store = g.store ++ el ∷ [];
      } in
      let registered : register g el name ≡ (placed, fresh) = rw (free, register) refl in
      let (sorted, e1, h1) = >>=-eq-some (sort_elements fuel placed) _ (
        ap (λ (r : Engine S V × ℕ). sort_elements fuel r.0 >>= λ s. some (s, r.1)) (sym registered)
        ∙ h) in
      let at : fresh ≡ e = ap (λ (r : Engine S V × ℕ). r.1) (some_inj h1) in
      let same : sorted ≡ g' = ap (λ (r : Engine S V × ℕ). r.0) (some_inj h1) in
      let (es, g'-eq, perm) = sort_elements-Perm fuel placed g' (e1 ∙ ap some same) in
      let names : g'.elements_by_name ≡ (name, fresh) ∷ g.elements_by_name =
        ap (λ (r : Engine S V). r.elements_by_name) g'-eq in
      record {
        names = λ other.
            ap (λ (l : List (Name × ℕ)). find_name l other) names
            ∙ ap
                (λ (x : ℕ).
                  if name_eq name other then some x else find_name g.elements_by_name other)
                at;
        stored =
            ap₂ get_elem? (ap (λ (r : Engine S V). r.store) g'-eq) (sym at)
            ∙ get_elem?-append_last g.store el;
        listed = subst (Perm g'.elements) (ap (λ (x : ℕ). x ∷ g.elements) at) (
            Perm.trans
              (subst (λ l. Perm l (g.elements ++ fresh ∷ []))
                (sym (ap (λ (r : Engine S V). r.elements) g'-eq)) perm)
              (perm_append_comm g.elements (fresh ∷ [])));
      }

  -- Adding under a name in use.
  pub add_element_again :
      (fuel : ℕ) (g g' : Engine S V) (el : Element S V) (name : Name) (e e' : ℕ)
      → get_element g name ≡ some e'
      → add_element fuel g el name ≡ some (g', e)
      → (e ≡ e')
        × Perm g'.elements (e' ∷ g.elements)
        × (g'.elements_by_name ≡ g.elements_by_name)
        × (g'.store ≡ g.store ++ el ∷ [])
  unfolding add_element register get_element
  add_element_again fuel g g' el name e e' taken h =
      let placed : Engine S V = record g {
        elements = g.elements ++ e' ∷ [];
        store = g.store ++ el ∷ [];
      } in
      let registered : register g el name ≡ (placed, e') = rw (taken, register) refl in
      let (sorted, e1, h1) = >>=-eq-some (sort_elements fuel placed) _ (
        ap (λ (r : Engine S V × ℕ). sort_elements fuel r.0 >>= λ s. some (s, r.1)) (sym registered)
        ∙ h) in
      let same : sorted ≡ g' = ap (λ (r : Engine S V × ℕ). r.0) (some_inj h1) in
      let (es, g'-eq, perm) = sort_elements-Perm fuel placed g' (e1 ∙ ap some same) in
      (
        sym (ap (λ (r : Engine S V × ℕ). r.1) (some_inj h1)),
        Perm.trans
            (subst (λ l. Perm l (g.elements ++ e' ∷ []))
              (sym (ap (λ (r : Engine S V). r.elements) g'-eq)) perm)
            (perm_append_comm g.elements (e' ∷ [])),
        ap (λ (r : Engine S V). r.elements_by_name) g'-eq,
        ap (λ (r : Engine S V). r.store) g'-eq,
      )

  -- What connecting leaves alone, and keeps.
  record Kept (g g' : Engine S V) : Type 0 where
    elements : g'.elements ≡ g.elements
    names : g'.elements_by_name ≡ g.elements_by_name
    typed : IsTyped g.store → IsTyped g'.store

  connect_input-Kept :
      (g : Engine S V) (out : ℕ) (port : Name) (input : NetConnection)
      → Kept g (connect_input g out port input)
  unfolding connect_input
  connect_input-Kept g out port input = elim (Option-cases (get_element g (c_string input.name))) [
    | inl n ↦ rw (n, connect_input) (record { elements = refl; names = refl; typed = λ t. t })
    | inr (e, s) ↦
        rw (s, connect_input)
          (record {
            elements = refl;
            names = refl;
            typed = connect-IsTyped g.store out port e (c_string input.port);
          })
  ]

  connect_inputs-Kept :
      (g : Engine S V) (out : ℕ) (port : Name) (inputs : List NetConnection)
      → Kept g (connect_inputs g out port inputs)
  unfolding connect_inputs
  connect_inputs-Kept g out port [] = record { elements = refl; names = refl; typed = λ t. t }
  connect_inputs-Kept g out port (input ∷ inputs) =
      let k = connect_input-Kept g out port input in
      let ks = connect_inputs-Kept (connect_input g out port input) out port inputs in
      record {
        elements = ks.elements ∙ k.elements;
        names = ks.names ∙ k.names;
        typed = λ t. ks.typed (k.typed t);
      }

  -- Where adding a net ends and the connections were typed (every connected input port points at an
  -- existing output port of its type), they are typed afterwards, the elements are the same up to
  -- their order, and so are the names, whichever of the net's names and ports exist.
  pub add_net-IsTyped :
      (fuel : ℕ) (g g' : Engine S V) (net : Net)
      → IsTyped g.store
      → add_net fuel g net ≡ some g'
      → IsTyped g'.store × Perm g'.elements g.elements × (g'.elements_by_name ≡ g.elements_by_name)
  unfolding add_net
  add_net-IsTyped fuel g g' net typed h =
      elim (Option-cases (get_element g (c_string net.output.name))) [
        | inl n ↦
            let unchanged : add_net fuel g net ≡ some g = rw (n, add_net) refl in
            let same : g ≡ g' = some_inj (sym unchanged ∙ h) in
            (
              subst (λ (r : Engine S V). IsTyped r.store) same typed,
              subst (λ (r : Engine S V). Perm r.elements g.elements) same (Perm.refl g.elements),
              ap (λ (r : Engine S V). r.elements_by_name) (sym same),
            )
        | inr (out, s) ↦
            let inputs = take (u16 (length net.inputs)) net.inputs in
            let connected = connect_inputs g out (c_string net.output.port) inputs in
            let k = connect_inputs-Kept g out (c_string net.output.port) inputs in
            let run : add_net fuel g net ≡ sort_elements fuel connected = rw (s, add_net) refl in
            let (es, g'-eq, perm) = sort_elements-Perm fuel connected g' (sym run ∙ h) in
            (
              subst (λ (r : Engine S V). IsTyped r.store) (sym g'-eq) (k.typed typed),
              subst (λ l. Perm l g.elements) (sym (ap (λ (r : Engine S V). r.elements) g'-eq))
                  (subst (Perm es) k.elements perm),
              ap (λ (r : Engine S V). r.elements_by_name) g'-eq ∙ k.names,
            )
      ]
