-- ===== src/Device/Board/Validate.antt =====
-- What `ValidateIO` finds, and when `Update` runs the engine.
use mathlib.Core.Bool.{false≢true}
use logic_elements.Base.{
  ℕ, ◌≡◌, refl, sym, ap, ◌∙◌, Bool, true, false, not, ◌&&◌, List, [], ◌∷◌, Option, none, some,
  if◌then◌else◌, if_true, if_false, All, Bool-cases, inl, inr, subst,
}
use logic_elements.Time.{Time}
use logic_elements.Core.Engine.{Engine, Behaviour, get_element}
use logic_elements.Core.Engine
use logic_elements.Core.Engine.Text.{c_string}
use logic_elements.Device.Board.{
  Board, BoardIo, bind_first, bind_ios, bind_outputs, bind_digital_inputs, bind_analog_inputs,
  validate_io, update, run_checked, run_engine,
}

-- A pointer that is not null.
abbrev pub is_some : {A : Type 0} → Option A → Bool
is_some none = false
is_some (some a) = true

if_not : (b : Bool) → (if b then false else true) ≡ not b
if_not true = refl
if_not false = refl

bind_first_found :
    (io : BoardIo) (o : Option ℕ) (ios : List BoardIo) (rest : List BoardIo × Bool)
    → (bind_first io o ios rest).1 ≡ (is_some o && rest.1)
unfolding bind_first
bind_first_found io none ios rest = refl
bind_first_found io (some e) ios rest = refl

module _ {S V : Type 0} where
  -- An entry points at the element of its name.
  abbrev pub IsBoundTo : Engine S V → BoardIo → Type 0
  IsBoundTo g io = (e : ℕ) × (io.element ≡ some e) × (get_element g (c_string io.name) ≡ some e)

  -- The engine has an element of every entry's name.
  abbrev pub all_found : Engine S V → List BoardIo → Bool
  all_found g [] = true
  all_found g (io ∷ ios) = is_some (get_element g (c_string io.name)) && all_found g ios

  abbrev pub board_found : Engine S V → Board S V → Bool
  board_found g b =
      all_found g b.analog_inputs && (all_found g b.digital_inputs && all_found g b.outputs)

  abbrev pub AllBound : Engine S V → Board S V → Type 0
  AllBound g b =
      All (IsBoundTo g) b.analog_inputs
      × All (IsBoundTo g) b.digital_inputs
      × All (IsBoundTo g) b.outputs

  bind_ios_found : (g : Engine S V) (ios : List BoardIo) → (bind_ios g ios).1 ≡ all_found g ios
  unfolding bind_ios
  bind_ios_found g [] = refl
  bind_ios_found g (io ∷ ios) =
      bind_first_found io (get_element g (c_string io.name)) ios (bind_ios g ios)
      ∙ ap (λ (b : Bool). is_some (get_element g (c_string io.name)) && b) (bind_ios_found g ios)

  bind_first-IsBoundTo :
      (g : Engine S V) (io : BoardIo) (o : Option ℕ) (ios : List BoardIo)
      (rest : List BoardIo × Bool)
      → get_element g (c_string io.name) ≡ o
      → (bind_first io o ios rest).1 ≡ true
      → (rest.1 ≡ true → All (IsBoundTo g) rest.0)
      → All (IsBoundTo g) (bind_first io o ios rest).0
  unfolding bind_first
  bind_first-IsBoundTo g io none ios rest e h f = cc
  bind_first-IsBoundTo g io (some a) ios rest e h f = ((a, refl, e), f h)

  bind_ios-IsBoundTo :
      (g : Engine S V) (ios : List BoardIo)
      → (bind_ios g ios).1 ≡ true
      → All (IsBoundTo g) (bind_ios g ios).0
  unfolding bind_ios
  bind_ios-IsBoundTo g [] h = tt
  bind_ios-IsBoundTo g (io ∷ ios) h =
      bind_first-IsBoundTo g io (get_element g (c_string io.name)) ios (bind_ios g ios) refl h
        (bind_ios-IsBoundTo g ios)

  -- The flag after `ValidateIO`, and the entries where it is cleared.
  pub record Checked (g : Engine S V) (b c : Board S V) (found : Bool) : Type 0 where
    pub flag : c.is_invalidated ≡ (if found then false else b.is_invalidated)
    pub same_engine : c.engine ≡ b.engine
    pub same_pause : c.is_paused ≡ b.is_paused
    pub same_hal : c.has_hal ≡ b.has_hal
    pub bound : found ≡ true → AllBound g c
    pub bound_outputs : found ≡ true → c.outputs ≡ (bind_ios g b.outputs).0

  -- The three flags of the loops.
  abbrev loops_found : Engine S V → Board S V → Bool
  loops_found g b =
      (bind_ios g b.analog_inputs).1
      && ((bind_ios g b.digital_inputs).1 && (bind_ios g b.outputs).1)

  loops_found_eq : (g : Engine S V) (b : Board S V) → loops_found g b ≡ board_found g b
  loops_found_eq g b =
      rw
        (
          bind_ios_found g b.analog_inputs,
          bind_ios_found g b.digital_inputs,
          bind_ios_found g b.outputs,
        )
        refl

  bind_analog_inputs-Checked :
      (g : Engine S V) (b : Board S V) → Checked g b (bind_analog_inputs g b) (loops_found g b)
  unfolding bind_analog_inputs bind_digital_inputs bind_outputs
  bind_analog_inputs-Checked g b = elim (Bool-cases (bind_ios g b.analog_inputs).1) [
    | inr e ↦ rw e (record {
      flag = refl;
      same_engine = refl;
      same_pause = refl;
      same_hal = refl;
      bound = λ h. absurd (false≢true h);
      bound_outputs = λ h. absurd (false≢true h);
    })
    | inl e ↦ elim (Bool-cases (bind_ios g b.digital_inputs).1) [
      | inr e' ↦
          rw (e, e')
            (record {
              flag = refl;
              same_engine = refl;
              same_pause = refl;
              same_hal = refl;
              bound = λ h. absurd (false≢true h);
              bound_outputs = λ h. absurd (false≢true h);
            })
      | inl e' ↦
          rw (e, e')
            (record {
              flag = refl;
              same_engine = refl;
              same_pause = refl;
              same_hal = refl;
              bound = λ h. (
                bind_ios-IsBoundTo g b.analog_inputs e,
                bind_ios-IsBoundTo g b.digital_inputs e',
                bind_ios-IsBoundTo g b.outputs h,
              );
              bound_outputs = λ h. refl;
            })
    ]
  ]

  pub validate_io-Checked :
      (g : Engine S V) (b : Board S V) → Checked g b (validate_io b (some g)) (board_found g b)
  unfolding validate_io
  validate_io-Checked g b =
      subst (Checked g b (bind_analog_inputs g b)) (loops_found_eq g b)
        (bind_analog_inputs-Checked g b)

  -- What an update gives, for the engine that it finds and whether it found all elements.
  abbrev pub Updated : Behaviour S V → Engine S V → Time → Bool → Bool → Option (Board S V) → Type 0
  Updated behave g now found paused o =
      (c : Board S V) × (o ≡ some c)
      × (c.is_invalidated ≡ not found)
      × (found ≡ true → AllBound g c)
      × (c.engine ≡ some (if found && not paused then Engine.update behave g now else g))

  run_checked-Updated :
      (behave : Behaviour S V) (g : Engine S V) (c : Board S V) (now : Time) (found paused : Bool)
      → c.engine ≡ some g
      → c.is_invalidated ≡ not found
      → c.is_paused ≡ paused
      → (found ≡ true → AllBound g c)
      → Updated behave g now found paused (run_checked behave c now)
  unfolding run_checked
  run_checked-Updated behave g c now false paused attached flag pause bound =
      (c, if_true c.is_invalidated _ _ flag, flag, bound, attached)
  run_checked-Updated behave g c now true true attached flag pause bound =
      (c, if_false c.is_invalidated _ _ flag ∙ if_true c.is_paused _ _ pause, flag, bound, attached)
  run_checked-Updated behave g c now true false attached flag pause bound = (
    record c { engine = some (Engine.update behave g now) },
    if_false c.is_invalidated _ _ flag
        ∙ if_false c.is_paused _ _ pause
        ∙ ap (run_engine behave c now) attached,
    flag,
    bound,
    refl,
  )

  -- Update of a board that is not validated, with an engine attached, clears the flag exactly if
  -- the engine has the name of every entry, each entry then points at the element of its name, and
  -- the engine is updated exactly if they were all found and the board is not paused.
  pub update-Updated :
      (behave : Behaviour S V) (g : Engine S V) (b : Board S V) (now : Time)
      → b.engine ≡ some g
      → b.is_invalidated ≡ true
      → Updated behave g now (board_found g b) b.is_paused (update behave b now)
  unfolding update
  update-Updated behave g b now attached invalid =
      let found = board_found g b in
      let c = validate_io b (some g) in
      let checked = validate_io-Checked g b in
      let flag : c.is_invalidated ≡ not found =
        checked.flag ∙ ap (λ (x : Bool). if found then false else x) invalid ∙ if_not found in
      subst (λ (d : Board S V). Updated behave g now found b.is_paused (run_checked behave d now))
        (sym (if_true b.is_invalidated _ _ invalid ∙ ap (validate_io b) attached))
        (run_checked-Updated behave g c now found b.is_paused (checked.same_engine ∙ attached) flag
          checked.same_pause checked.bound)
