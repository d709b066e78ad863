-- ===== src/Device/Board/Outputs.antt =====
-- What `UpdateOutputs` writes after an `Update` that validates the board, and elements that are added to the engine of a board.
use logic_elements.Base.{
  ℕ, ◌≡◌, refl, sym, ap, ap₂, subst, if_true, ◌∙◌, Bool, true, false, not, List, [], ◌∷◌, Option,
  none, some, if◌then◌else◌, if_false, ◌>>=◌, Option-cases, Bool-cases, inl, inr,
}
use logic_elements.Core.Port.{Name, name_eq, eq_of_name_eq}
use logic_elements.Core.Element.{Element, Store}
use logic_elements.Core.Engine.{Engine, Behaviour, get_element, add_element, find_name}
use logic_elements.Core.Engine.Text.{c_string}
use logic_elements.Core.Engine.Names.{add_element-Added, add_element_again}
use logic_elements.Device.Board.{
  Board, BoardIo, HalCall, bind_ios, bind_first, validate_io, run_checked, run_engine, update,
  write_digital, update_outputs, node_output, update_slot, board_update_output,
}
use logic_elements.Device.Board.Validate.{Checked, validate_io-Checked, board_found}
use logic_elements.Core.Engine
use logic_elements.Time.{Time}
use logic_elements.Device.Board.Bound.{Grows}

none≢some : {a : ℕ} → none ≡ some a → ⊥
none≢some h = cc

-- The element of an entry's name is a node that has a value on its output port.
abbrev pub Shows : {S : Type 0} → Engine S Bool → Store S Bool → BoardIo → Bool → Type 0
Shows g store io value = (get_element g (c_string io.name) >>= node_output store) ≡ some value

-- Each entry with the value that its node has.
abbrev pub AllShow : {S : Type 0} → Engine S Bool → Store S Bool → List BoardIo → List Bool → Type 0
AllShow g store [] [] = Unit {0}
AllShow g store [] (v ∷ vs) = ⊥
AllShow g store (io ∷ ios) [] = ⊥
AllShow g store (io ∷ ios) (v ∷ vs) = Shows g store io v × AllShow g store ios vs

-- The calls that write the values, each inverted where its entry says so.
abbrev pub writes : List BoardIo → List Bool → List HalCall
writes [] vs = []
writes (io ∷ ios) [] = []
writes (io ∷ ios) (v ∷ vs) = write_digital io.gpio (if io.invert then not v else v) ∷ writes ios vs

-- Entries as the loop of `ValidateIO` binds them.
bound-writes :
    {S : Type 0} (has_hal : Bool) (g : Engine S Bool) (store : Store S Bool) (ios : List BoardIo)
    (values : List Bool)
    → AllShow g store ios values
    → update_outputs has_hal store (bind_ios g ios).0
      ≡ some (if has_hal then writes ios values else [])
unfolding update_outputs update_slot board_update_output bind_ios bind_first
bound-writes false g store [] [] shows = refl
bound-writes true g store [] [] shows = refl
bound-writes has_hal g store [] (v ∷ vs) shows = absurd shows
bound-writes has_hal g store (io ∷ ios) [] shows = absurd shows
bound-writes has_hal g store (io ∷ ios) (v ∷ vs) (shown, shows) =
    first has_hal (get_element g (c_string io.name)) shown
      (bound-writes has_hal g store ios vs shows)
  where
    first :
        (hal : Bool) (o : Option ℕ)
        → (o >>= node_output store) ≡ some v
        → update_outputs hal store (bind_ios g ios).0 ≡ some (if hal then writes ios vs else [])
        → update_outputs hal store (bind_first io o ios (bind_ios g ios)).0
          ≡ some (if hal then writes (io ∷ ios) (v ∷ vs) else [])
    first hal none h rest = cc
    first false (some e) h rest = rw rest refl
    first true (some e) h rest = rw (h, rest) refl

checked_run :
    {S : Type 0} (behave : Behaviour S Bool) (g : Engine S Bool) (c : Board S Bool) (now : Time)
    (paused : Bool)
    → c.engine ≡ some g
    → c.is_invalidated ≡ false
    → c.is_paused ≡ paused
    → (d : Board S Bool) × (run_checked behave c now ≡ some d)
      × (d.engine ≡ some (if paused then g else Engine.update behave g now))
      × (d.outputs ≡ c.outputs)
      × (d.has_hal ≡ c.has_hal)
unfolding run_checked
checked_run behave g c now true attached flag pause =
    (c, if_false c.is_invalidated _ _ flag ∙ if_true c.is_paused _ _ pause, attached, refl, refl)
checked_run behave g c now false attached flag pause = (
  record c { engine = some (Engine.update behave g now) },
  if_false c.is_invalidated _ _ flag
      ∙ if_false c.is_paused _ _ pause
      ∙ ap (run_engine behave c now) attached,
  refl,
  refl,
  refl,
)

-- After an Update of a board that is not validated, with an engine attached that has the name of
-- every entry, and where each output names a digital node that has a value on its output port after
-- the update, UpdateOutputs casts no element of another class, and with a hardware layer writes
-- each node's value to the output's pin, in order, inverted where the output says so, and nothing
-- without one.
pub update_outputs-writes :
    {S : Type 0} (behave : Behaviour S Bool) (g : Engine S Bool) (b : Board S Bool) (now : Time)
    (values : List Bool)
    → b.engine ≡ some g
    → b.is_invalidated ≡ true
    → board_found g b ≡ true
    → let after = if b.is_paused then g else Engine.update behave g now in
      AllShow g after.store b.outputs values
      → (d : Board S Bool) × (update behave b now ≡ some d)
        × (d.engine ≡ some after)
        × (update_outputs d.has_hal after.store d.outputs
            ≡ some (if b.has_hal then writes b.outputs values else []))
unfolding update
update_outputs-writes {S = S} behave g b now values attached invalid found shows =
    let after = if b.is_paused then g else Engine.update behave g now in
    let c = validate_io b (some g) in
    let checked = subst (Checked g b c) found (validate_io-Checked g b) in
    let (d, run, engine, outputs, hal) =
      checked_run behave g c now b.is_paused (checked.same_engine ∙ attached) checked.flag
        checked.same_pause in
    (
      d,
      ap (λ (x : Board S Bool). run_checked behave x now)
            (if_true b.is_invalidated _ _ invalid ∙ ap (validate_io b) attached)
          ∙ run,
      engine,
      ap₂ (λ (h : Bool) (ios : List BoardIo). update_outputs h after.store ios)
            (hal ∙ checked.same_hal) (outputs ∙ checked.bound_outputs refl)
          ∙ bound-writes b.has_hal g after.store b.outputs values shows,
    )

-- Adding an element keeps every name that the engine has.
pub add_element-Grows :
    {S V : Type 0} (fuel : ℕ) (g g' : Engine S V) (el : Element S V) (name : Name) (e : ℕ)
    → add_element fuel g el name ≡ some (g', e)
    → Grows g g'
unfolding get_element
add_element-Grows fuel g g' el name e h other a found = elim (Option-cases (get_element g name)) [
  | inl free ↦
      let added = add_element-Added fuel g g' el name e free h in
      added.names other ∙ if_false (name_eq name other) _ _ (other_name free) ∙ found
  | inr (e', taken) ↦
      let (same, listed, names, stored) = add_element_again fuel g g' el name e e' taken h in
      ap (λ (l : List (Name × ℕ)). find_name l other) names ∙ found
]
  where
    other_name : get_element g name ≡ none → name_eq name other ≡ false
    other_name free = elim (Bool-cases (name_eq name other)) [
      | inl same ↦
          absurd (none≢some (sym free ∙ ap (get_element g) (eq_of_name_eq name other same) ∙ found))
      | inr ne ↦ ne
    ]
