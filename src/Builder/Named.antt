-- ===== src/Builder/Named.antt =====
-- The names of an engine that a configuration built: each element of the configuration has its own.
use logic_elements.Base.{
  ℕ, ◌≡◌, refl, sym, ap, ◌∙◌, Bool, List, [], Option, none, some, some_inj, subst, >>=-eq-some,
  ◌>>=◌, Option-cases, inl, inr, All, All-mono, if_true,
}
use logic_elements.Time.{Time}
use logic_elements.Core.Port.{Name, name_eq, name_eq_refl}
use logic_elements.Core.Element.{Element}
use logic_elements.Core.Engine.{Engine, Net, add_net, add_element, get_element, find_name}
use logic_elements.Core.Engine.Text.{c_string}
use logic_elements.Core.Engine.Names.{add_net-IsTyped, add_element-Added, add_element_again}
use logic_elements.Core.Node.{FloatOps}
use logic_elements.Digital.{State, ElementDef, add_element_def}
use logic_elements.Device.Board.Bound.{Grows}
use logic_elements.Device.Board.Outputs.{add_element-Grows}
use logic_elements.Builder.{
  put_element, put_net, parse_element, parse_net, put_ser, ser_def, parse_elements, parse_nets,
  parse_ser, parse_ser_field, build, new_engine,
}
use logic_elements.Builder.Values.{JsonOps, ArgumentOps, ok, each}
use logic_elements.Builder.Items.{read_element, read_net, read_ser_point, field_or_null}
use logic_elements.Builder.Loops.{ok_inj, rejected≢ok, and_then-ok, each-invariant, each-made}
use logic_elements.Builder.Constructs.{Constructs, ser-Constructs, read_element-Constructs}
use logic_elements.Builder.Typed.{
  Typed, empty-Typed, put_net-Typed, put_element-Typed, parse_elements-Typed,
}

add_element_found :
    {S V : Type 0} (fuel : ℕ) (g g' : Engine S V) (el : Element S V) (name : Name) (e : ℕ)
    → add_element fuel g el name ≡ some (g', e)
    → get_element g' name ≡ some e
unfolding get_element
add_element_found fuel g g' el name e h = elim (Option-cases (get_element g name)) [
  | inl free ↦
      (add_element-Added fuel g g' el name e free h).names name
      ∙ if_true (name_eq name name) _ _ (name_eq_refl name)
  | inr (e', taken) ↦
      let (same, listed, names, stored) = add_element_again fuel g g' el name e e' taken h in
      ap (λ (l : List (Name × ℕ)). find_name l name) names ∙ taken ∙ ap some (sym same)
]

module _ {J F : Type 0} (json : JsonOps J F) (arg : ArgumentOps F) (ops : FloatOps F) (fuel : ℕ)
    (now : Time) where
  -- The engine has an element under the name.
  abbrev pub Found : ElementDef F → Engine (State F) Bool → Type 0
  Found def g = (e : ℕ) × (get_element g (c_string def.name) ≡ some e)

  -- An item of the array was read, and its element is there.
  abbrev pub IsNamed : J → Engine (State F) Bool → Type 0
  IsNamed j g = (def : ElementDef F) × (read_element json arg j ≡ some (ok def)) × Found def g

  -- What adding an element from its definition does to the names.
  record Put (g g' : Engine (State F) Bool) (def : ElementDef F) : Type 0 where
    grows : Grows g g'
    found : Found def g'

  add_element_def-Put :
      (g g' : Engine (State F) Bool) (def : ElementDef F) (e : Option ℕ)
      → Constructs ops def.element_type
      → add_element_def ops fuel now 0 g def ≡ some (g', e)
      → Put g g' def
  unfolding add_element_def
  add_element_def-Put g g' def e can h =
      let (el, s) = can now 0 def.args in
      let name = c_string def.name in
      let run : add_element_def ops fuel now 0 g def
          ≡ (add_element fuel g el name >>= λ added. some (added.0, some added.1)) =
        rw (s, add_element_def) refl in
      let (added, e1, h1) = >>=-eq-some (add_element fuel g el name) _ (sym run ∙ h) in
      let same : added.0 ≡ g' = ap (λ (r : Engine (State F) Bool × Option ℕ). r.0) (some_inj h1) in
      record {
        grows = subst (Grows g) same (add_element-Grows fuel g added.0 el name added.1 e1);
        found = (
          added.1,
          ap (λ (x : Engine (State F) Bool). get_element x name) (sym same)
              ∙ add_element_found fuel g added.0 el name added.1 e1,
        );
      }

  put_element-Put :
      (g g' : Engine (State F) Bool) (def : ElementDef F)
      → Constructs ops def.element_type
      → put_element json arg ops fuel now g def ≡ some (ok g')
      → Put g g' def
  put_element-Put g g' def can h =
      let (added, e, e') = >>=-eq-some (add_element_def ops fuel now 0 g def) _ h in
      subst (λ x. Put g x def) (ok_inj (some_inj e'))
        (add_element_def-Put g added.0 def added.1 can e)

  Found-Grows :
      (def : ElementDef F) (g g' : Engine (State F) Bool) → Grows g g' → Found def g → Found def g'
  Found-Grows def g g' more (e, f) = (e, more (c_string def.name) e f)

  IsNamed-Grows : (j : J) (g g' : Engine (State F) Bool) → Grows g g' → IsNamed j g → IsNamed j g'
  IsNamed-Grows j g g' more (def, r, f) = (def, r, Found-Grows def g g' more f)

  parse_elements-IsNamed :
      (g g' : Engine (State F) Bool) (js : List J)
      → each (parse_element json arg ops fuel now) g js ≡ some (ok g')
      → All (λ j. IsNamed j g') js
  parse_elements-IsNamed g g' js h =
      each-made IsNamed (parse_element json arg ops fuel now)
        (λ s s' a e.
          let (def, r, e') = and_then-ok (read_element json arg a) _ s' e in
          (
            def,
            r,
            (put_element-Put s s' def (read_element-Constructs json arg ops a def r) e').found,
          ))
        (λ s s' a b made e.
          let (def, r, e') = and_then-ok (read_element json arg a) _ s' e in
          IsNamed-Grows b s s'
            (put_element-Put s s' def (read_element-Constructs json arg ops a def r) e').grows made)
        g g' js h

  -- Typed connections and no fewer names.
  record Grown (g g' : Engine (State F) Bool) : Type 0 where
    typed : Typed json arg ops fuel now g'
    grows : Grows g g'

  put_net-Grown :
      (g s s' : Engine (State F) Bool) (net : Net)
      → Grown g s
      → put_net json arg ops fuel now s net ≡ some (ok s')
      → Grown g s'
  unfolding get_element
  put_net-Grown g s s' net old h =
      let (added, e, e') = >>=-eq-some (add_net fuel s net) _ h in
      let names = (add_net-IsTyped fuel s added net old.typed.0 e).2 in
      let same : added ≡ s' = ok_inj (some_inj e') in
      record {
        typed = put_net-Typed json arg ops fuel now s s' net old.typed h;
        grows = λ name a f.
            ap (λ (x : Engine (State F) Bool). get_element x name) (sym same)
            ∙ ap (λ (l : List (Name × ℕ)). find_name l name) names
            ∙ old.grows name a f;
      }

  parse_nets-Grown :
      (g g' : Engine (State F) Bool) (j : J) (js : Option (List J))
      → Typed json arg ops fuel now g
      → parse_nets json arg ops fuel now g j js ≡ some (ok g')
      → Grown g g'
  unfolding parse_nets
  parse_nets-Grown g g' j none typed h = absurd (rejected≢ok (some_inj h))
  parse_nets-Grown g g' j (some js) typed h =
      each-invariant (Grown g) (parse_net json arg ops fuel now)
        (λ s s' a t e.
          let (net, r, e') = and_then-ok (read_net json arg a) _ s' e in
          put_net-Grown g s s' net t e')
        g g' js (record { typed = typed; grows = λ name a f. f }) h

  put_ser-Grows :
      (g g' : Engine (State F) Bool) (points : ℕ × List Net)
      → Typed json arg ops fuel now g
      → put_ser json arg ops fuel now g points ≡ some (ok g')
      → Grows g g'
  put_ser-Grows g g' (count, nets) typed h =
      let def = ser_def json arg ops fuel now count in
      let (t, e, e') = and_then-ok (put_element json arg ops fuel now g def) _ g' h in
      (each-invariant (Grown g) (put_net json arg ops fuel now) (λ s s' a. put_net-Grown g s s' a) t
        g' nets
        (record {
          typed = put_element-Typed json arg ops fuel now g t def typed e;
          grows = (put_element-Put g t def (ser-Constructs ops) e).grows;
        })
        e').grows

  parse_ser-Grows :
      (g g' : Engine (State F) Bool) (j : J) (js : Option (List J))
      → Typed json arg ops fuel now g
      → parse_ser json arg ops fuel now g j js ≡ some (ok g')
      → Grows g g'
  unfolding parse_ser
  parse_ser-Grows g g' j none typed h = absurd (rejected≢ok (some_inj h))
  parse_ser-Grows g g' j (some js) typed h =
      let (points, r, e) = and_then-ok (each (read_ser_point json arg) (0, []) js) _ g' h in
      put_ser-Grows g g' points typed e

  parse_ser_field-Grows :
      (g g' : Engine (State F) Bool) (j : Option J)
      → Typed json arg ops fuel now g
      → parse_ser_field json arg ops fuel now g j ≡ some (ok g')
      → Grows g g'
  parse_ser_field-Grows g g' none typed h = subst (Grows g) (ok_inj (some_inj h)) (λ name a f. f)
  parse_ser_field-Grows g g' (some j) typed h = parse_ser-Grows g g' j (json.array_of j) typed h

  parse_array :
      (g g' : Engine (State F) Bool) (j : J) (js : List J)
      → parse_elements json arg ops fuel now g j (some js) ≡ some (ok g')
      → each (parse_element json arg ops fuel now) g js ≡ some (ok g')
  unfolding parse_elements
  parse_array g g' j js h = h

  pub build-IsNamed :
      (j : J) (g : Engine (State F) Bool) (js : List J)
      → json.array_of (field_or_null json arg j "elements") ≡ some js
      → build json arg ops fuel now j ≡ some (ok g)
      → All (λ item. IsNamed item g) js
  unfolding build
  build-IsNamed j g js array h =
      let start = new_engine json arg ops fuel now in
      let elements = field_or_null json arg j "elements" in
      let (a, e, e') =
        and_then-ok (parse_elements json arg ops fuel now start elements (json.array_of elements)) _
          g h in
      let (b, r, r') = and_then-ok (parse_nets json arg ops fuel now a _ _) _ g e' in
      let typed =
        parse_elements-Typed json arg ops fuel now start a elements _
          (empty-Typed json arg ops fuel now) e in
      let nets = parse_nets-Grown a b _ _ typed r in
      let named = parse_elements-IsNamed start a js (
        parse_array start a elements js
          (ap (parse_elements json arg ops fuel now start elements) (sym array) ∙ e)) in
      All-mono
        (λ item.
          IsNamed-Grows item a g
            (λ name x f. parse_ser_field-Grows b g _ nets.typed r' name x (nets.grows name x f)))
        js named
