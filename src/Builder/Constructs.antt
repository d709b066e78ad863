-- ===== src/Builder/Constructs.antt =====
-- The element types that src/LogicElements/src/Builder/le_Builder.cpp accepts: `AddElement` of
-- src/LogicElements/src/Core/le_Engine.cpp has a case for each.
use Prim.Native.String.{String}
use logic_elements.Base.{
  ℕ, ◌≡◌, refl, sym, ap, ◌∙◌, Bool, false, List, [], ◌∷◌, Option, none, some, some_inj, All, subst,
  if_cases, Bool-cases, inl, inr, >>=-eq-some, if_false, if_true,
}
use logic_elements.Time.{Time}
use logic_elements.Core.Port.{Name, name_eq}
use logic_elements.Core.Element.{Element}
use logic_elements.Core.Element.Types.{
  ElementType, invalid, ser, bytes, find_type, digital_type_names, parse_digital_type,
}
use logic_elements.Core.Node.{FloatOps}
use logic_elements.Digital.{State, Argument, ElementDef, construct}
use logic_elements.Builder.Values.{JsonOps, ArgumentOps, is_invalid, ok}
use logic_elements.Builder.Items.{text_field, typed_element, read_typed, read_named, read_element}
use logic_elements.Builder.Loops.{ok_inj, rejected≢ok}

-- What holds of every type of a table, and of `invalid`, holds of the type that is found.
find_type-All :
    (P : ElementType → Type 0) (names : List (String × ElementType)) (name : Name)
    → All (λ x. P x.1) names
    → P invalid
    → P (find_type names name)
unfolding find_type
find_type-All P [] name h i = i
find_type-All P ((text, t) ∷ names) name (h, hs) i =
    if_cases P (name_eq name (bytes text)) (λ _. h) (λ _. find_type-All P names name hs i)

module _ {F : Type 0} (ops : FloatOps F) where
  -- The `switch` of `AddElement` makes an element of the type, whatever the arguments are.
  abbrev pub Constructs : ElementType → Type 0
  Constructs t =
      (now : Time) (node_length : ℕ) (args : ℕ → Argument F)
      → (el : Element (State F) Bool) × (construct ops now node_length t args ≡ some el)

  pub ser-Constructs : Constructs ser
  unfolding construct
  ser-Constructs now node_length args = (_, refl)

  pub parse_digital_type-Constructs :
      (name : Name)
      → is_invalid (parse_digital_type name) ≡ false
      → Constructs (parse_digital_type name)
  unfolding parse_digital_type construct
  parse_digital_type-Constructs name =
      find_type-All (λ t. is_invalid t ≡ false → Constructs t) digital_type_names name
        (
          (λ h now len args. (_, refl)),
          (
            (λ h now len args. (_, refl)),
            (
              (λ h now len args. (_, refl)),
              (
                (λ h now len args. (_, refl)),
                (
                  (λ h now len args. (_, refl)),
                  (
                    (λ h now len args. (_, refl)),
                    (
                      (λ h now len args. (_, refl)),
                      (
                        (λ h now len args. (_, refl)),
                        ((λ h now len args. (_, refl)), ((λ h now len args. (_, refl)), tt)),
                      ),
                    ),
                  ),
                ),
              ),
            ),
          ),
        )
        (λ h. cc)

module _ {J F : Type 0} (json : JsonOps J F) (arg : ArgumentOps F) (ops : FloatOps F) where
  typed_element-valid :
      (j : J) (name type_text : Name) (t : ElementType) (def : ElementDef F)
      → typed_element json arg j name type_text t ≡ some (ok def)
      → (is_invalid t ≡ false) × (t ≡ def.element_type)
  unfolding typed_element
  typed_element-valid j name type_text t def h = elim (Bool-cases (is_invalid t)) [
    | inl bad ↦ absurd (rejected≢ok (some_inj (sym (if_true (is_invalid t) _ _ bad) ∙ h)))
    | inr good ↦
        let (args, found, made) =
          >>=-eq-some (json.field j (bytes "args")) _
            (sym (if_false (is_invalid t) _ _ good) ∙ h) in
        (good, ap (λ (d : ElementDef F). d.element_type) (ok_inj (some_inj made)))
  ]

  read_typed-Constructs :
      (j : J) (name : Name) (type_text : Option Name) (def : ElementDef F)
      → read_typed json arg j name type_text ≡ some (ok def)
      → Constructs ops def.element_type
  read_typed-Constructs j name none def h = absurd (rejected≢ok (some_inj h))
  read_typed-Constructs j name (some text) def h =
      let (good, same) = typed_element-valid j name text (parse_digital_type text) def h in
      subst (Constructs ops) same (parse_digital_type-Constructs ops text good)

  read_named-Constructs :
      (j : J) (name : Option Name) (def : ElementDef F)
      → read_named json arg j name ≡ some (ok def)
      → Constructs ops def.element_type
  read_named-Constructs j none def h = absurd (rejected≢ok (some_inj h))
  read_named-Constructs j (some name) def h =
      read_typed-Constructs j name (text_field json arg j "type") def h

  -- Every element that is read can be made.
  pub read_element-Constructs :
      (j : J) (def : ElementDef F)
      → read_element json arg j ≡ some (ok def)
      → Constructs ops def.element_type
  read_element-Constructs j def h = read_named-Constructs j (text_field json arg j "name") def h
