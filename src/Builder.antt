-- ===== src/Builder.antt =====
-- src/LogicElements/src/Builder/le_Builder.cpp and src/LogicElements/include/Builder/le_Builder.hpp:
-- an engine from a configuration, in the digital build and without LE_DNP3. The library of JSON
-- values is not under the model: what the builder asks of a value is a record of functions.
pub mod Values
pub mod Items
pub mod Loops
pub mod Constructs
pub mod Typed
pub mod Named
pub mod Reports
use logic_elements.Base.{ℕ, Bool, true, false, List, [], ◌∷◌, Option, none, some, ◌>>=◌}
use logic_elements.Time.{Time}
use logic_elements.Core.Port.{Name}
use logic_elements.Core.Element.Types.{bytes, ser}
use logic_elements.Core.Engine.{Engine, Net, add_net}
use logic_elements.Core.Node.{FloatOps}
use logic_elements.Digital.{State, ElementDef, element_def, add_element_def}
use logic_elements.Builder.Values.{
  Errors, no_errors, set_error, Result, JsonOps, ArgumentOps, default_ser_name, and_then, each,
  inv_file, inv_json_file, inv_engine_name, inv_engine_components, inv_ser, no_minor, ok, rejected,
}
use logic_elements.Builder.Items.{
  text_field, field_or_null, put_argument, read_element, nets_error, read_net, read_ser_point,
}

module _ {J F : Type 0} (json : JsonOps J F) (arg : ArgumentOps F) (ops : FloatOps F) (fuel : ℕ)
    (now : Time) where
  -- `GetEngine()->AddElement`, whose result is not used; `uDefaultNodeBufferLength` is 0.
  abbrev pub put_element :
      Engine (State F) Bool → ElementDef F → Option (Result (Engine (State F) Bool))
  put_element g def = do added ← add_element_def ops fuel now 0 g def; some (ok added.0)

  abbrev pub put_net : Engine (State F) Bool → Net → Option (Result (Engine (State F) Bool))
  put_net g net = do added ← add_net fuel g net; some (ok added)

  abbrev pub parse_element : Engine (State F) Bool → J → Option (Result (Engine (State F) Bool))
  parse_element g j = and_then (read_element json arg j) (put_element g)

  abbrev pub parse_net : Engine (State F) Bool → J → Option (Result (Engine (State F) Bool))
  parse_net g j = and_then (read_net json arg j) (put_net g)

  -- `ParseElements`, `ParseNets` and `ParseSER`, with the array that the value is.
  unfoldable pub parse_elements :
      Engine (State F) Bool → J → Option (List J) → Option (Result (Engine (State F) Bool))
  parse_elements g j none = some (rejected (set_error inv_engine_components no_minor (json.dump j)))
  parse_elements g j (some js) = each parse_element g js

  unfoldable pub parse_nets :
      Engine (State F) Bool → J → Option (List J) → Option (Result (Engine (State F) Bool))
  parse_nets g j none = some (rejected (nets_error json arg j))
  parse_nets g j (some js) = each parse_net g js

  -- The element of the recorder, and then the nets.
  abbrev pub ser_def : ℕ → ElementDef F
  ser_def count =
      let def : ElementDef F = element_def (arg.with_u 0) default_ser_name ser in
      record def { args = put_argument json arg def.args 0 (arg.with_u count) }

  abbrev pub put_ser :
      Engine (State F) Bool → ℕ × List Net → Option (Result (Engine (State F) Bool))
  put_ser g (count, nets) = and_then (put_element g (ser_def count)) (λ g'. each put_net g' nets)

  unfoldable pub parse_ser :
      Engine (State F) Bool → J → Option (List J) → Option (Result (Engine (State F) Bool))
  parse_ser g j none = some (rejected (set_error inv_ser no_minor (json.dump j)))
  parse_ser g j (some js) = and_then (each (read_ser_point json arg) (0, []) js) (put_ser g)

  abbrev pub parse_ser_field :
      Engine (State F) Bool → Option J → Option (Result (Engine (State F) Bool))
  parse_ser_field g none = some (ok g)
  parse_ser_field g (some j) = parse_ser g j (json.array_of j)

  -- The engine that the constructor makes.
  abbrev pub new_engine : Engine (State F) Bool
  new_engine = record { elements = []; elements_by_name = []; store = [] }

  -- What `LoadConfig` does to the new engine.
  unfoldable pub build : J → Option (Result (Engine (State F) Bool))
  build j =
      let elements = field_or_null json arg j "elements" in
      let nets = field_or_null json arg j "nets" in
      and_then (parse_elements new_engine elements (json.array_of elements)) (λ g.
        and_then (parse_nets g nets (json.array_of nets))
          (λ g'. parse_ser_field g' (json.field j (bytes "ser"))))

-- The board's pointer to its engine: as it was, to a new engine, or to one that was deleted.
pub data EnginePointer (E : Type 0) : Type 0 where
  kept dangling : EnginePointer E
  attached : E → EnginePointer E

-- The result of `LoadConfig`, with what it leaves.
pub record Load (E : Type 0) : Type 0 where
  pub returns : Bool
  pub errors : Errors
  pub engine : EnginePointer E

abbrev pub not_loaded : {E : Type 0} → Errors → Load E
not_loaded e = record { returns = false; errors = e; engine = kept }

-- The end of `LoadConfig`, after `AttachEngine`.
abbrev pub loaded : {E : Type 0} → Result E → Load E
loaded (ok g) = record { returns = true; errors = no_errors; engine = attached g }
loaded (rejected e) = record { returns = false; errors = e; engine = dangling }

module _ {J F : Type 0} (json : JsonOps J F) (arg : ArgumentOps F) (ops : FloatOps F) (fuel : ℕ)
    (now : Time) where
  abbrev pub load_named : Name → J → Option Name → Option (Load (Engine (State F) Bool))
  load_named text j none = some (not_loaded (set_error inv_engine_name no_minor text))
  load_named text j (some name) = do r ← build json arg ops fuel now j; some (loaded r)

  abbrev pub load_parsed : Name → Option J → Option (Load (Engine (State F) Bool))
  load_parsed text none = some (not_loaded (set_error inv_json_file no_minor text))
  load_parsed text (some j) = load_named text j (text_field json arg j "name")

  -- `LoadConfig`
  unfoldable pub load_config : Name → Option (Load (Engine (State F) Bool))
  load_config text = load_parsed text (json.parse text)

  -- `LoadFromFile`, for what the file holds; `none`: it cannot be opened or read.
  unfoldable pub load_from_file : Option Name → Option (Load (Engine (State F) Bool))
  load_from_file none = some (not_loaded (set_error inv_file no_minor []))
  load_from_file (some []) = some (not_loaded no_errors)
  load_from_file (some (c ∷ text)) = load_config (c ∷ text)
