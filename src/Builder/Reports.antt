-- ===== src/Builder/Reports.antt =====
-- What `LoadConfig` reports: an error wherever it returns false.
use logic_elements.Base.{
  ℕ, ◌≡◌, refl, Bool, true, false, List, [], ◌∷◌, Option, none, some, some_inj, subst, ◌>>=◌,
  if_cases,
}
use logic_elements.Base.Int.{ℤ}
use logic_elements.Time.{Time}
use logic_elements.Core.Port.{Name}
use logic_elements.Core.Element.Types.{ElementType, parse_digital_type}
use logic_elements.Core.Engine.{Engine, Net, NetConnection, add_net}
use logic_elements.Core.Node.{FloatOps}
use logic_elements.Digital.{State, add_element_def}
use logic_elements.Builder.{
  put_element, put_net, parse_element, parse_net, put_ser, ser_def, parse_elements, parse_nets,
  parse_ser, parse_ser_field, build, new_engine, Load, EnginePointer, kept, dangling, attached,
  loaded, load_named, load_parsed, load_config,
}
use logic_elements.Builder.Values.{
  JsonOps, ArgumentOps, MajorError, no_major, Result, ok, rejected, each, and_then, is_invalid,
}
use logic_elements.Builder.Items.{
  text_field, typed_element, read_typed, read_named, read_element, connection_of,
  parse_net_connection, push_input, parse_input, net_inputs, array_field, with_output, net_output,
  read_net, ser_point, read_ser_point,
}

abbrev pub is_no_major : MajorError → Bool
is_no_major no_major = true
is_no_major _ = false

-- What is rejected, is rejected with an error.
abbrev Honest : {A : Type 0} → Option (Result A) → Type 0
Honest none = Unit {0}
Honest (some (ok a)) = Unit {0}
Honest (some (rejected e)) = is_no_major e.major ≡ false

and_then-Honest :
    {A B : Type 0} (r : Option (Result A)) (f : A → Option (Result B))
    → Honest r
    → ((a : A) → Honest (f a))
    → Honest (and_then r f)
unfolding and_then
and_then-Honest none f h k = tt
and_then-Honest (some (ok a)) f h k = k a
and_then-Honest (some (rejected e)) f h k = h

each-Honest :
    {A S : Type 0} (f : S → A → Option (Result S))
    → ((s : S) (a : A) → Honest (f s a))
    → (s : S) (items : List A) → Honest (each f s items)
unfolding each
each-Honest f h s [] = tt
each-Honest f h s (a ∷ items) =
    and_then-Honest (f s a) (λ s'. each f s' items) (h s a) (λ s'. each-Honest f h s' items)

made-Honest : {A B : Type 0} (o : Option A) (g : A → B) → Honest (o >>= λ a. some (ok (g a)))
made-Honest none g = tt
made-Honest (some a) g = tt

module _ {J F : Type 0} (json : JsonOps J F) (arg : ArgumentOps F) where
  typed_element-Honest :
      (j : J) (name type_text : Name) (t : ElementType)
      → Honest (typed_element json arg j name type_text t)
  unfolding typed_element
  typed_element-Honest j name type_text t =
      if_cases Honest (is_invalid t) (λ _. refl) (λ _. made-Honest (json.field j _) _)

  read_typed-Honest :
      (j : J) (name : Name) (o : Option Name) → Honest (read_typed json arg j name o)
  read_typed-Honest j name none = refl
  read_typed-Honest j name (some t) = typed_element-Honest j name t (parse_digital_type t)

  read_named-Honest : (j : J) (o : Option Name) → Honest (read_named json arg j o)
  read_named-Honest j none = refl
  read_named-Honest j (some name) = read_typed-Honest j name (text_field json arg j "type")

  connection_of-Honest :
      (j : J) (name port : Option Name) → Honest (some (connection_of json arg j name port))
  unfolding connection_of
  connection_of-Honest j (some name) (some port) = tt
  connection_of-Honest j (some name) none = refl
  connection_of-Honest j none port = refl

  push_input-Honest :
      (net : Net) (r : Result NetConnection) → Honest (some r) → Honest (push_input json arg net r)
  push_input-Honest net (ok c) h = tt
  push_input-Honest net (rejected e) h = h

  net_inputs-Honest :
      (j : J) (output : NetConnection) (o : Option (List J))
      → Honest (net_inputs json arg j output o)
  unfolding net_inputs
  net_inputs-Honest j output none = refl
  net_inputs-Honest j output (some inputs) =
      each-Honest (parse_input json arg)
        (λ net i.
          push_input-Honest net (parse_net_connection json arg i) (connection_of-Honest i _ _))
        _ inputs

  with_output-Honest :
      (j : J) (r : Result NetConnection) → Honest (some r) → Honest (with_output json arg j r)
  with_output-Honest j (ok output) h = net_inputs-Honest j output (array_field json arg j "inputs")
  with_output-Honest j (rejected e) h = h

  net_output-Honest : (j : J) (o : Option J) → Honest (net_output json arg j o)
  net_output-Honest j none = refl
  net_output-Honest j (some output) =
      if_cases Honest (json.is_object output)
        (λ _.
          with_output-Honest j (parse_net_connection json arg output)
            (connection_of-Honest output _ _))
        (λ _. refl)

  ser_point-Honest :
      (points : ℕ × List Net) (j : J) (name : Option Name) (slot : Option ℤ)
      → Honest (ser_point json arg points j name slot)
  unfolding ser_point
  ser_point-Honest (count, nets) j (some name) (some slot) = tt
  ser_point-Honest (count, nets) j (some name) none = refl
  ser_point-Honest (count, nets) j none slot = refl

  module _ (ops : FloatOps F) (fuel : ℕ) (now : Time) where
    parse_elements-Honest :
        (g : Engine (State F) Bool) (j : J) (js : Option (List J))
        → Honest (parse_elements json arg ops fuel now g j js)
    unfolding parse_elements
    parse_elements-Honest g j none = refl
    parse_elements-Honest g j (some js) =
        each-Honest (parse_element json arg ops fuel now)
          (λ s a.
            and_then-Honest (read_element json arg a) _ (read_named-Honest a _)
              (λ def. made-Honest (add_element_def ops fuel now 0 s def) _))
          g js

    parse_nets-Honest :
        (g : Engine (State F) Bool) (j : J) (js : Option (List J))
        → Honest (parse_nets json arg ops fuel now g j js)
    unfolding parse_nets
    parse_nets-Honest g j none = refl
    parse_nets-Honest g j (some js) =
        each-Honest (parse_net json arg ops fuel now)
          (λ s a.
            and_then-Honest (read_net json arg a) _ (net_output-Honest a _)
              (λ net. made-Honest (add_net fuel s net) _))
          g js

    put_ser-Honest :
        (g : Engine (State F) Bool) (points : ℕ × List Net)
        → Honest (put_ser json arg ops fuel now g points)
    put_ser-Honest g (count, nets) =
        and_then-Honest (put_element json arg ops fuel now g (ser_def json arg ops fuel now count))
          _ (made-Honest (add_element_def ops fuel now 0 g _) _)
          (λ g'.
            each-Honest (put_net json arg ops fuel now)
              (λ s net. made-Honest (add_net fuel s net) _) g' nets)

    parse_ser-Honest :
        (g : Engine (State F) Bool) (j : J) (js : Option (List J))
        → Honest (parse_ser json arg ops fuel now g j js)
    unfolding parse_ser
    parse_ser-Honest g j none = refl
    parse_ser-Honest g j (some js) =
        and_then-Honest (each (read_ser_point json arg) (0, []) js) _
          (each-Honest (read_ser_point json arg) (λ s a. ser_point-Honest s a _ _) (0, []) js)
          (put_ser-Honest g)

    parse_ser_field-Honest :
        (g : Engine (State F) Bool) (j : Option J)
        → Honest (parse_ser_field json arg ops fuel now g j)
    parse_ser_field-Honest g none = tt
    parse_ser_field-Honest g (some j) = parse_ser-Honest g j (json.array_of j)

    build-Honest : (j : J) → Honest (build json arg ops fuel now j)
    unfolding build
    build-Honest j =
        and_then-Honest
          (parse_elements json arg ops fuel now (new_engine json arg ops fuel now) _ _) _
          (parse_elements-Honest _ _ _)
          (λ g.
            and_then-Honest (parse_nets json arg ops fuel now g _ _) _ (parse_nets-Honest g _ _)
              (λ g'. parse_ser_field-Honest g' _))

    abbrev pub is_attached : {E : Type 0} → EnginePointer E → Bool
    is_attached (attached g) = true
    is_attached kept = false
    is_attached dangling = false

    -- True, no error and an engine on the board, or false, an error and none.
    abbrev pub IsReported : Load (Engine (State F) Bool) → Type 0
    IsReported r = (is_no_major r.errors.major ≡ r.returns) × (is_attached r.engine ≡ r.returns)

    load_result :
        (o : Option (Result (Engine (State F) Bool))) (r : Load (Engine (State F) Bool))
        → Honest o
        → (o >>= λ x. some (loaded x)) ≡ some r
        → IsReported r
    load_result none r h e = cc
    load_result (some (ok g)) r h e = subst IsReported (some_inj e) (refl, refl)
    load_result (some (rejected x)) r h e = subst IsReported (some_inj e) (h, refl)

    load_named-IsReported :
        (text : Name) (j : J) (name : Option Name) (r : Load (Engine (State F) Bool))
        → load_named json arg ops fuel now text j name ≡ some r
        → IsReported r
    load_named-IsReported text j none r e = subst IsReported (some_inj e) (refl, refl)
    load_named-IsReported text j (some name) r e =
        load_result (build json arg ops fuel now j) r (build-Honest j) e

    load_parsed-IsReported :
        (text : Name) (j : Option J) (r : Load (Engine (State F) Bool))
        → load_parsed json arg ops fuel now text j ≡ some r
        → IsReported r
    load_parsed-IsReported text none r e = subst IsReported (some_inj e) (refl, refl)
    load_parsed-IsReported text (some j) r e = load_named-IsReported text j _ r e

    -- In the digital build and without LE_DNP3, where LoadConfig ends, it returns true exactly if
    -- its error state says no error, and exactly if the board points at a new engine that was not
    -- deleted.
    pub load_config-IsReported :
        (text : Name) (r : Load (Engine (State F) Bool))
        → load_config json arg ops fuel now text ≡ some r
        → IsReported r
    unfolding load_config
    load_config-IsReported text r e = load_parsed-IsReported text (json.parse text) r e
