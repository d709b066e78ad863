-- ===== src/Core/Engine/Taken.antt =====
-- `Engine::AddElement(Element*, name)` of src/LogicElements/src/Core/le_Engine.cpp under a name that
-- is in use: where the new element is.
use mathlib.Core.List.{Perm, Mem}
use mathlib.Core.List.Perm
use logic_elements.Base.{ℕ, ◌<◌, ◌≡◌, sym, ap, ◌∙◌, List, [], ◌∷◌, ◌++◌, some, length, arith}
use logic_elements.Core.Port.{Name}
use logic_elements.Core.Element.{Element}
use logic_elements.Core.Engine.{Engine, find_name, get_element, add_element}
use logic_elements.Core.Engine.Names.{add_element_again}
use logic_elements.Core.Engine.Placed.{IsPlaced, find_name-lt, not-Mem}

module _ {S V : Type 0} where
  -- In an engine whose names and list lead to stored elements, where adding an element under a name
  -- in use ends, it returns the element that has the name and lists that one once more, up to the
  -- order; the names are unchanged, and the new element is stored at the end, where no name and no
  -- list entry leads.
  pub add_element_taken :
      (fuel : ℕ) (g g' : Engine S V) (el : Element S V) (name : Name) (e e' : ℕ)
      → IsPlaced g
      → get_element g name ≡ some e'
      → add_element fuel g el name ≡ some (g', e)
      → (e ≡ e')
        × Perm g'.elements (e' ∷ g.elements)
        × (g'.elements_by_name ≡ g.elements_by_name)
        × (g'.store ≡ g.store ++ el ∷ [])
        × ¬ Mem (length g.store) g'.elements
        × ((other : Name) → ¬ (get_element g' other ≡ some (length g.store)))
  unfolding get_element
  add_element_taken fuel g g' el name e e' placed taken h =
      let (same, listed, names, stored) = add_element_again fuel g g' el name e e' taken h in
      let fresh = length g.store in
      let old : e' < fresh = find_name-lt fresh g.elements_by_name name e' placed.named taken in
      (
        same,
        listed,
        names,
        stored,
        (λ m. not-Mem fresh (e' ∷ g.elements) (old, placed.listed) ((Perm.mem_iff listed).0 m)),
        (λ other found.
            let below =
              find_name-lt fresh g.elements_by_name other fresh placed.named
                (ap (λ (l : List (Name × ℕ)). find_name l other) (sym names) ∙ found) in
            omega arith),
      )
