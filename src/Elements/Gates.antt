-- ===== src/Elements/Gates.antt =====
-- src/LogicElements/src/Elements/Digital/le_AND.cpp, le_OR.cpp and le_NOT.cpp.
use logic_elements.Base.{
  ◌≡◌, refl, ap, ap₂, sym, ◌∙◌, ◌↔◌, ◌⊎◌, inl, inr, Bool, true, false, not, ◌&&◌, ◌||◌, List, [],
  ◌∷◌, Option, none, some, arith,
}

-- The loop of `AND::Update`: `nextValue &= inputValue` at each connected port.
unfoldable pub and_loop : Bool → List (Option Bool) → Bool
and_loop next [] = next
and_loop next (none ∷ ports) = and_loop next ports
and_loop next (some b ∷ ports) = and_loop (next && b) ports

-- `AND::Update`: the value that goes to the output port.
unfoldable pub and_update : List (Option Bool) → Bool
and_update ports = and_loop true ports

-- The loop of `OR::Update`.
unfoldable pub or_loop : Bool → List (Option Bool) → Bool
or_loop next [] = next
or_loop next (none ∷ ports) = or_loop next ports
or_loop next (some b ∷ ports) = or_loop (next || b) ports

-- `OR::Update`.
unfoldable pub or_update : List (Option Bool) → Bool
or_update ports = or_loop false ports

-- `NOT::Update`, on the value that the output port has: an input that is not connected leaves it.
unfoldable pub not_update : Option Bool → Bool → Bool
not_update none output = output
not_update (some b) output = not b

-- All, and some, of the connected inputs.
abbrev pub AllTrue : List (Option Bool) → Type 0
AllTrue [] = Unit {0}
AllTrue (none ∷ ports) = AllTrue ports
AllTrue (some b ∷ ports) = (b ≡ true) × AllTrue ports

abbrev pub SomeTrue : List (Option Bool) → Type 0
SomeTrue [] = ⊥
SomeTrue (none ∷ ports) = SomeTrue ports
SomeTrue (some b ∷ ports) = (b ≡ true) ⊎ SomeTrue ports

and_loop_iff :
    (next : Bool) (ports : List (Option Bool))
    → (and_loop next ports ≡ true) ↔ ((next ≡ true) × AllTrue ports)
unfolding and_loop
and_loop_iff next [] = ((λ h. (h, tt)), (λ h. h.0))
and_loop_iff next (none ∷ ports) = and_loop_iff next ports
and_loop_iff true (some true ∷ ports) = let ih = and_loop_iff true ports in ground (arith, ih)
and_loop_iff true (some false ∷ ports) = let ih = and_loop_iff false ports in ground (arith, ih)
and_loop_iff false (some b ∷ ports) = let ih = and_loop_iff false ports in ground (arith, ih)

-- AND is true exactly when every connected input is true.
pub and_update_iff : (ports : List (Option Bool)) → (and_update ports ≡ true) ↔ AllTrue ports
unfolding and_update
and_update_iff ports =
    ((λ h. ((and_loop_iff true ports).0 h).1), (λ h. (and_loop_iff true ports).1 (refl, h)))

-- The same connections, with each value inverted.
abbrev pub inverted : List (Option Bool) → List (Option Bool)
inverted [] = []
inverted (none ∷ ports) = none ∷ inverted ports
inverted (some b ∷ ports) = some (not b) ∷ inverted ports

de_morgan_loop :
    (next : Bool) (ports : List (Option Bool))
    → or_loop (not next) (inverted ports) ≡ not (and_loop next ports)
unfolding and_loop or_loop
de_morgan_loop next [] = refl
de_morgan_loop next (none ∷ ports) = de_morgan_loop next ports
de_morgan_loop true (some true ∷ ports) = de_morgan_loop true ports
de_morgan_loop true (some false ∷ ports) = de_morgan_loop false ports
de_morgan_loop false (some b ∷ ports) = de_morgan_loop false ports

-- An OR of inverted inputs is a NOT behind an AND of the inputs, whatever is connected.
pub de_morgan :
    (ports : List (Option Bool)) (output : Bool)
    → or_update (inverted ports) ≡ not_update (some (and_update ports)) output
unfolding or_update not_update and_update
de_morgan ports output = de_morgan_loop true ports

not-not : (b : Bool) → not (not b) ≡ b
not-not true = refl
not-not false = refl

inverted_twice : (ports : List (Option Bool)) → inverted (inverted ports) ≡ ports
inverted_twice [] = refl
inverted_twice (none ∷ ports) = ap (λ (l : List (Option Bool)). none ∷ l) (inverted_twice ports)
inverted_twice (some b ∷ ports) =
    ap₂ (λ (c : Bool) (l : List (Option Bool)). some c ∷ l) (not-not b) (inverted_twice ports)

NotAllTrue : (ports : List (Option Bool)) → ¬ AllTrue (inverted ports) → SomeTrue ports
NotAllTrue [] h = h tt
NotAllTrue (none ∷ ports) h = NotAllTrue ports h
NotAllTrue (some true ∷ ports) h = inl refl
NotAllTrue (some false ∷ ports) h = inr (NotAllTrue ports (λ k. h (refl, k)))

AllTrue-inverted : (ports : List (Option Bool)) → AllTrue (inverted ports) → ¬ SomeTrue ports
AllTrue-inverted [] a s = s
AllTrue-inverted (none ∷ ports) a s = AllTrue-inverted ports a s
AllTrue-inverted (some b ∷ ports) a (inl e) = ground arith
AllTrue-inverted (some b ∷ ports) a (inr s) = AllTrue-inverted ports a.1 s

-- OR is true exactly when some connected input is true.
pub or_update_iff : (ports : List (Option Bool)) → (or_update ports ≡ true) ↔ SomeTrue ports
unfolding not_update
or_update_iff ports =
    let dual = rw (inverted_twice ports) at (de_morgan (inverted ports) true) in
    (
      (λ h. NotAllTrue ports (λ a.
          clash (and_update (inverted ports)) true (sym dual ∙ h)
            ((and_update_iff (inverted ports)).1 a))),
      (λ h.
          dual
          ∙ negate (and_update (inverted ports)) true
              (λ e. AllTrue-inverted ports ((and_update_iff (inverted ports)).0 e) h)),
    )
  where
    clash : (b c : Bool) → not_update (some b) c ≡ true → b ≡ true → ⊥
    clash b c h e = ground arith

    negate : (b c : Bool) → (b ≡ true → ⊥) → not_update (some b) c ≡ true
    negate b c h = ground arith

-- AND is true exactly when every connected input is true, and OR exactly when some connected input
-- is.
pub and_or_iff :
    (ports : List (Option Bool))
    → ((and_update ports ≡ true) ↔ AllTrue ports) × ((or_update ports ≡ true) ↔ SomeTrue ports)
and_or_iff ports = (and_update_iff ports, or_update_iff ports)
