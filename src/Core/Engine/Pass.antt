-- ===== src/Core/Engine/Pass.antt =====
-- What one pass of `Engine::Update` computes on elements that stand behind their sources.
use mathlib.Core.List.{Perm}
use logic_elements.Base.{
  ℕ, ◌+◌, ◌^◌, ◌<◌, ◌≡◌, refl, sym, ap, ap₂, subst, ◌∙◌, ◌≢◌, List, [], ◌∷◌, map, Option, none,
  some, inl, inr, All, Pairs, All-mono, get_elem?, get_elem?-set-some, get_elem?-set_ne,
  Option-cases, ◌>>=◌,
}
use logic_elements.Time.{Time}
use logic_elements.Core.Port.{Source, InputPort}
use logic_elements.Core.Element.{Element, Store}
use logic_elements.Core.Order.{inputs_of}
use logic_elements.Core.Order.Chain.{IsSource, Feeds, source_element}
use logic_elements.Core.Engine.{
  Behaviour, Engine, read_input, update_element, update_elements, update, sort_elements,
}
use logic_elements.Core.Engine.Sort.{SourcesFirst, Before, sort_elements-SourcesFirst}

module _ {S V : Type 0} where
  read_input-cong :
      (a b : Store S V) (p : InputPort) (source : Option Source)
      → p.source ≡ source
      → ((s : ℕ) → source_element p ≡ some s → get_elem? a s ≡ get_elem? b s)
      → read_input a p ≡ read_input b p
  unfolding read_input
  read_input-cong a b p none e same = rw e refl
  read_input-cong a b p (some q) e same =
      let at : source_element p ≡ some q.element = rw (e, source_element) refl in
      rw (e, same q.element at) refl

  read_inputs-cong :
      (a b : Store S V) (ports : List InputPort)
      → ((s : ℕ) → Feeds s ports → get_elem? a s ≡ get_elem? b s)
      → map (read_input a) ports ≡ map (read_input b) ports
  read_inputs-cong a b [] same = refl
  read_inputs-cong a b (p ∷ ports) same =
      ap₂ (λ (r : Option (ℕ × V)) (rs : List (Option (ℕ × V))). r ∷ rs)
        (read_input-cong a b p p.source refl (λ s f. same s (inl f)))
        (read_inputs-cong a b ports (λ s f. same s (inr f)))

  module _ (behave : Behaviour S V) (now : Time) where
    update_element_other :
        (store : Store S V) (e x : ℕ)
        → e ≢ x
        → get_elem? (update_element behave now store e) x ≡ get_elem? store x
    unfolding update_element
    update_element_other store e x ne = elim (Option-cases (get_elem? store e)) [
      | inl n ↦ rw (n, update_element) refl
      | inr (el, s) ↦ rw (s, update_element) (get_elem?-set_ne store _ ne)
    ]

    update_element_self :
        (store : Store S V) (e : ℕ) (el : Element S V)
        → get_elem? store e ≡ some el
        → get_elem? (update_element behave now store e) e
          ≡ some (behave now (map (read_input store) el.inputs) el)
    unfolding update_element
    update_element_self store e el h = rw (h, update_element) (get_elem?-set-some store e el _ h)

    update_element-none :
        (store : Store S V) (e : ℕ)
        → get_elem? store e ≡ none
        → get_elem? (update_element behave now store e) e ≡ none
    unfolding update_element
    update_element-none store e h = rw (h, update_element) h

    update_elements_other :
        (store : Store S V) (es : List ℕ) (x : ℕ)
        → All (λ e. e ≢ x) es
        → get_elem? (update_elements behave now store es) x ≡ get_elem? store x
    unfolding update_elements
    update_elements_other store [] x h = refl
    update_elements_other store (e ∷ es) x (h, hs) =
        update_elements_other (update_element behave now store e) es x hs
        ∙ update_element_other store e x h

    -- Every element of the list is its behaviour applied to what its ports read in `after`.
    abbrev pub Settled : Store S V → Store S V → ℕ → Type 0
    Settled before after e =
        get_elem? after e
        ≡ (get_elem? before e >>= λ el. some (behave now (map (read_input after) el.inputs) el))

    update_elements-Settled :
        (before store : Store S V) (es : List ℕ)
        → SourcesFirst before es
        → All (λ e. get_elem? store e ≡ get_elem? before e) es
        → All (Settled before (update_elements behave now store es)) es
    unfolding update_elements
    update_elements-Settled before store [] h same = tt
    update_elements-Settled before store (e ∷ es) ((first, pairs), (alone, alones)) (same, sames) =
        let next = update_element behave now store e in
        let after = update_elements behave now next es in
        let rest : All (λ x. get_elem? next x ≡ get_elem? before x) es =
          agree e es store first sames in
        (
          elim (Option-cases (get_elem? before e)) [
            | inl h ↦
                update_elements_other next es e (All-mono (λ x b q. b.0 (sym q)) es first)
                ∙ update_element-none store e (same ∙ h)
                ∙ ap
                    (λ (o : Option (Element S V)).
                      o >>= λ el. some (behave now (map (read_input after) el.inputs) el))
                    (sym h)
            | inr (el, h) ↦
                let here : get_elem? store e ≡ some el = same ∙ h in
                let inputs : inputs_of before e ≡ el.inputs = rw (h, inputs_of) refl in
                let kept : (s : ℕ) → Feeds s el.inputs → get_elem? store s ≡ get_elem? after s =
                  λ s f.
                    let f' : IsSource before s e = subst (Feeds s) (sym inputs) f in
                    let ne : e ≢ s = λ q. alone (subst (λ x. IsSource before x e) (sym q) f') in
                    sym (
                      update_elements_other next es s (
                        All-mono (λ x b q. b.1 (subst (λ y. IsSource before y e) (sym q) f')) es
                          first)
                      ∙ update_element_other store e s ne) in
                update_elements_other next es e (All-mono (λ x b q. b.0 (sym q)) es first)
                ∙ update_element_self store e el here
                ∙ ap (λ (rs : List (Option (ℕ × V))). some (behave now rs el))
                    (read_inputs-cong store after el.inputs kept)
                ∙ ap
                    (λ (o : Option (Element S V)).
                      o >>= λ el. some (behave now (map (read_input after) el.inputs) el))
                    (sym h)
          ],
          update_elements-Settled before next es (pairs, alones) rest,
        )
      where
        agree :
            (e : ℕ) (es : List ℕ) (store : Store S V)
            → All (Before before e) es
            → All (λ x. get_elem? store x ≡ get_elem? before x) es
            → All (λ x. get_elem? (update_element behave now store e) x ≡ get_elem? before x) es
        agree e [] store b s = tt
        agree e (x ∷ xs) store (b, bs) (s, ss) =
            (update_element_other store e x b.0 ∙ s, agree e xs store bs ss)

  All-same : (store : Store S V) (es : List ℕ) → All (λ e. get_elem? store e ≡ get_elem? store e) es
  All-same store [] = tt
  All-same store (e ∷ es) = (refl, All-same store es)

  -- One update pass over elements of which none stands twice, reads itself or stands before one of
  -- its sources leaves every one of them as its behaviour applied to the values that its input
  -- ports read after the pass, or absent where it was absent: there is no delay between elements.
  pub update-Settled :
      (behave : Behaviour S V) (now : Time) (g : Engine S V)
      → SourcesFirst g.store g.elements
      → All (Settled behave now g.store (update behave g now).store) g.elements
  unfolding update
  update-Settled behave now g h =
      update_elements-Settled behave now g.store g.store g.elements h (All-same g.store g.elements)

  -- In a network without cycles (a rank rises along every connection, and is less than the fuel and
  -- than 2 ^ 16 - 1 at every listed element) that lists no element twice, sorting ends with the
  -- same elements, and one update pass over the sorted engine leaves every listed element as its
  -- behaviour applied to the values that its input ports read after the pass.
  pub sort_elements-update-Settled :
      (behave : Behaviour S V) (now : Time) (g : Engine S V) (rank : ℕ → ℕ) (fuel : ℕ)
      → ((s e : ℕ) → IsSource g.store s e → rank s < rank e)
      → All (λ e. (rank e < fuel) × (rank e + 1 < 2 ^ 16)) g.elements
      → Pairs ◌≢◌ g.elements
      → (g' : Engine S V) × (sort_elements fuel g ≡ some g')
        × Perm g'.elements g.elements
        × All (Settled behave now g.store (update behave g' now).store) g'.elements
  sort_elements-update-Settled behave now g rank fuel falls small distinct =
      let (es, returns, perm, first) =
        sort_elements-SourcesFirst g rank fuel falls small distinct in
      let sorted : Engine S V = record g { elements = es } in
      (sorted, returns, perm, update-Settled behave now sorted first)
