-- ===== src/Builder/Typed.antt =====
-- The connections of an engine that a configuration built.
use logic_elements.Base.{
  ℕ, ◌≡◌, ap, ◌∙◌, Bool, List, [], Option, none, some, some_inj, subst, >>=-eq-some, ◌>>=◌,
}
use logic_elements.Time.{Time}
use logic_elements.Core.Port.{Name}
use logic_elements.Core.Element.Typed.{IsTyped}
use logic_elements.Core.Engine.{Engine, Net, add_net}
use logic_elements.Core.Engine.Names.{add_net-IsTyped}
use logic_elements.Core.Engine.Placed.{IsPlaced, add_net-IsPlaced}
use logic_elements.Core.Node.{FloatOps}
use logic_elements.Digital.{State, ElementDef, add_element_def}
use logic_elements.Digital.Typed.{add_element_def-IsTyped, add_element_def-IsPlaced}
use logic_elements.Builder.{
  put_element, put_net, parse_element, parse_net, put_ser, ser_def, parse_elements, parse_nets,
  parse_ser, parse_ser_field, build, new_engine, Load, kept, dangling, attached, loaded, load_named,
  load_parsed, load_config,
}
use logic_elements.Builder.Values.{JsonOps, ArgumentOps, Result, ok, rejected, each}
use logic_elements.Builder.Items.{read_element, read_net, read_ser_point, field_or_null}
use logic_elements.Builder.Loops.{ok_inj, rejected≢ok, none≢some, and_then-ok, each-invariant}

attached_inj : {E : Type 0} {g h : E} → attached g ≡ attached h → g ≡ h
attached_inj e = cc

dangling≢attached : {E : Type 0} {g : E} → dangling ≡ attached g → ⊥
dangling≢attached e = cc

kept≢attached : {E : Type 0} {g : E} → kept ≡ attached g → ⊥
kept≢attached e = cc

module _ {J F : Type 0} (json : JsonOps J F) (arg : ArgumentOps F) (ops : FloatOps F) (fuel : ℕ)
    (now : Time) where
  abbrev pub Typed : Engine (State F) Bool → Type 0
  Typed g = IsTyped g.store × IsPlaced g

  pub put_element-Typed :
      (g g' : Engine (State F) Bool) (def : ElementDef F)
      → Typed g
      → put_element json arg ops fuel now g def ≡ some (ok g')
      → Typed g'
  put_element-Typed g g' def typed h =
      let (added, e, e') = >>=-eq-some (add_element_def ops fuel now 0 g def) _ h in
      subst Typed (ok_inj (some_inj e')) (
        add_element_def-IsTyped ops fuel now 0 g added.0 def added.1 typed.0 e,
        add_element_def-IsPlaced ops fuel now 0 g added.0 def added.1 typed.1 e,
      )

  pub put_net-Typed :
      (g g' : Engine (State F) Bool) (net : Net)
      → Typed g
      → put_net json arg ops fuel now g net ≡ some (ok g')
      → Typed g'
  put_net-Typed g g' net typed h =
      let (added, e, e') = >>=-eq-some (add_net fuel g net) _ h in
      subst Typed (ok_inj (some_inj e')) (
        (add_net-IsTyped fuel g added net typed.0 e).0,
        add_net-IsPlaced fuel g added net typed.1 e,
      )

  pub parse_elements-Typed :
      (g g' : Engine (State F) Bool) (j : J) (js : Option (List J))
      → Typed g
      → parse_elements json arg ops fuel now g j js ≡ some (ok g')
      → Typed g'
  unfolding parse_elements
  parse_elements-Typed g g' j none typed h = absurd (rejected≢ok (some_inj h))
  parse_elements-Typed g g' j (some js) typed h =
      each-invariant Typed (parse_element json arg ops fuel now)
        (λ s s' a t e.
          let (def, r, e') = and_then-ok (read_element json arg a) _ s' e in
          put_element-Typed s s' def t e')
        g g' js typed h

  pub parse_nets-Typed :
      (g g' : Engine (State F) Bool) (j : J) (js : Option (List J))
      → Typed g
      → parse_nets json arg ops fuel now g j js ≡ some (ok g')
      → Typed g'
  unfolding parse_nets
  parse_nets-Typed g g' j none typed h = absurd (rejected≢ok (some_inj h))
  parse_nets-Typed g g' j (some js) typed h =
      each-invariant Typed (parse_net json arg ops fuel now)
        (λ s s' a t e.
          let (net, r, e') = and_then-ok (read_net json arg a) _ s' e in
          put_net-Typed s s' net t e')
        g g' js typed h

  put_ser-Typed :
      (g g' : Engine (State F) Bool) (points : ℕ × List Net)
      → Typed g
      → put_ser json arg ops fuel now g points ≡ some (ok g')
      → Typed g'
  put_ser-Typed g g' (count, nets) typed h =
      let (t, e, e') =
        and_then-ok (put_element json arg ops fuel now g (ser_def json arg ops fuel now count)) _ g'
          h in
      each-invariant Typed (put_net json arg ops fuel now) (λ s s' a. put_net-Typed s s' a) t g'
        nets (put_element-Typed g t _ typed e) e'

  parse_ser-Typed :
      (g g' : Engine (State F) Bool) (j : J) (js : Option (List J))
      → Typed g
      → parse_ser json arg ops fuel now g j js ≡ some (ok g')
      → Typed g'
  unfolding parse_ser
  parse_ser-Typed g g' j none typed h = absurd (rejected≢ok (some_inj h))
  parse_ser-Typed g g' j (some js) typed h =
      let (points, r, e) = and_then-ok (each (read_ser_point json arg) (0, []) js) _ g' h in
      put_ser-Typed g g' points typed e

  parse_ser_field-Typed :
      (g g' : Engine (State F) Bool) (j : Option J)
      → Typed g
      → parse_ser_field json arg ops fuel now g j ≡ some (ok g')
      → Typed g'
  parse_ser_field-Typed g g' none typed h = subst Typed (ok_inj (some_inj h)) typed
  parse_ser_field-Typed g g' (some j) typed h = parse_ser-Typed g g' j (json.array_of j) typed h

  pub empty-Typed : Typed (new_engine json arg ops fuel now)
  empty-Typed = ((λ a b el p e. absurd (none≢some e)), record { named = tt; listed = tt })

  build-Typed :
      (j : J) (g : Engine (State F) Bool) → build json arg ops fuel now j ≡ some (ok g) → Typed g
  unfolding build
  build-Typed j g h =
      let start = new_engine json arg ops fuel now in
      let elements = field_or_null json arg j "elements" in
      let (a, e, e') =
        and_then-ok (parse_elements json arg ops fuel now start elements (json.array_of elements)) _
          g h in
      let (b, r, r') = and_then-ok (parse_nets json arg ops fuel now a _ _) _ g e' in
      parse_ser_field-Typed b g _
        (parse_nets-Typed a b _ _ (parse_elements-Typed start a elements _ empty-Typed e) r) r'

  -- The board has a new engine only where it was built.
  loaded_attached :
      (o : Option (Result (Engine (State F) Bool))) (r : Load (Engine (State F) Bool))
      (g : Engine (State F) Bool)
      → (o >>= λ x. some (loaded x)) ≡ some r
      → r.engine ≡ attached g
      → o ≡ some (ok g)
  loaded_attached none r g h at = absurd (none≢some h)
  loaded_attached (some (ok x)) r g h at =
      ap (λ (y : Engine (State F) Bool). some (ok y))
        (attached_inj (ap (λ (l : Load (Engine (State F) Bool)). l.engine) (some_inj h) ∙ at))
  loaded_attached (some (rejected e)) r g h at =
      absurd
        (dangling≢attached (ap (λ (l : Load (Engine (State F) Bool)). l.engine) (some_inj h) ∙ at))

  load_named-Typed :
      (text : Name) (j : J) (name : Option Name) (r : Load (Engine (State F) Bool))
      (g : Engine (State F) Bool)
      → load_named json arg ops fuel now text j name ≡ some r
      → r.engine ≡ attached g
      → Typed g
  load_named-Typed text j none r g h at =
      absurd (kept≢attached (ap (λ (l : Load (Engine (State F) Bool)). l.engine) (some_inj h) ∙ at))
  load_named-Typed text j (some name) r g h at =
      build-Typed j g (loaded_attached (build json arg ops fuel now j) r g h at)

  load_parsed-Typed :
      (text : Name) (j : Option J) (r : Load (Engine (State F) Bool)) (g : Engine (State F) Bool)
      → load_parsed json arg ops fuel now text j ≡ some r
      → r.engine ≡ attached g
      → Typed g
  load_parsed-Typed text none r g h at =
      absurd (kept≢attached (ap (λ (l : Load (Engine (State F) Bool)). l.engine) (some_inj h) ∙ at))
  load_parsed-Typed text (some j) r g h at = load_named-Typed text j _ r g h at

  -- Whatever the configuration and the library of JSON values, where LoadConfig ends with a new
  -- engine on the board (in the digital build and without LE_DNP3, where every port is digital),
  -- every connected input port of that engine points at an output port that exists and has its
  -- type, and every name of an element and every entry of the list that is updated leads to an
  -- element of the engine.
  pub load_config-IsTyped :
      (text : Name) (r : Load (Engine (State F) Bool)) (g : Engine (State F) Bool)
      → load_config json arg ops fuel now text ≡ some r
      → r.engine ≡ attached g
      → IsTyped g.store × IsPlaced g
  unfolding load_config
  load_config-IsTyped text r g h at = load_parsed-Typed text (json.parse text) r g h at
