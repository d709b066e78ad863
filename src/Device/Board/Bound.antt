-- ===== src/Device/Board/Bound.antt =====
-- A board whose inputs and outputs are validated: they point at the engine's elements, in every
-- state that the board's operations reach.
use logic_elements.Base.{
  ℕ, ◌≡◌, refl, sym, ap, ◌∙◌, Bool, true, false, not, ◌&&◌, List, Option, none, some, some_inj,
  if◌then◌else◌, if_cases, if_true, if_false, All, All-mono, Option-cases, Bool-cases, inl, inr,
  subst, set, ◌>>=◌, ◌<◌, length, lt→ltb, get_elem?-set_self,
}
use mathlib.Core.Bool.{false≢true}
use logic_elements.Time.{Time}
use logic_elements.Core.Port.{Name}
use logic_elements.Core.Element.Typed.{All-get_elem?}
use logic_elements.Core.Engine.{Engine, Behaviour, get_element}
use logic_elements.Core.Engine
use logic_elements.Core.Engine.Text.{c_string}
use logic_elements.Device.Board.{
  Board, BoardIo, HalCall, configure_digital_input, hal_calls, add_input, add_output,
  add_analog_input, attach_engine, start, pause, flag_input_for_update, validate_io, update,
  run_checked, run_engine, set_slot, board_io,
}
use logic_elements.Device.Board.Validate.{IsBoundTo, AllBound, board_found, update-Updated}

true_of_not : (b : Bool) → not b ≡ false → b ≡ true
true_of_not true h = refl
true_of_not false h = cc

null_element : {e : ℕ} → none ≡ some e → ⊥
null_element h = cc

module _ {S V : Type 0} where
  -- Every name of the one engine is a name of the other, for the same element.
  abbrev pub Grows : Engine S V → Engine S V → Type 0
  Grows g g' = (name : Name) (e : ℕ) → get_element g name ≡ some e → get_element g' name ≡ some e

  -- What is done to a board. Entries are added before the board is validated; the attached engine
  -- may get more elements.
  pub data Step (behave : Behaviour S V) : Board S V → Board S V → Type 0 where
    attaching : (b : Board S V) (g : Option (Engine S V)) → Step behave b (attach_engine b g)
    starting : (b : Board S V) → Step behave b (start b)
    pausing : (b : Board S V) → Step behave b (pause b)
    flagging : (b : Board S V) → Step behave b (flag_input_for_update b)
    growing :
        (b : Board S V) (g g' : Engine S V)
        → b.engine ≡ some g
        → Grows g g'
        → Step behave b (record b { engine = some g' })
    running : (b c : Board S V) (now : Time) → update behave b now ≡ some c → Step behave b c
    adding_input :
        (b c : Board S V) (slot : ℕ) (name : Name) (port pin : ℕ) (invert : Bool)
        (calls : List HalCall)
        → b.is_invalidated ≡ true
        → add_input b slot name port pin invert ≡ some (c, calls)
        → Step behave b c
    adding_output :
        (b c : Board S V) (slot : ℕ) (name : Name) (port pin : ℕ) (invert : Bool)
        (calls : List HalCall)
        → b.is_invalidated ≡ true
        → add_output b slot name port pin invert ≡ some (c, calls)
        → Step behave b c
    adding_analog_input :
        (b c : Board S V) (slot : ℕ) (name : Name) (port pin : ℕ) (calls : List HalCall)
        → b.is_invalidated ≡ true
        → add_analog_input b slot name port pin ≡ some (c, calls)
        → Step behave b c

  pub data Reach (behave : Behaviour S V) (b : Board S V) : Board S V → Type 0 where
    here : Reach behave b b
    next : {c d : Board S V} → Reach behave b c → Step behave c d → Reach behave b d

  -- Once the flag is cleared, an engine is attached and has all the elements.
  abbrev pub IsBound : Board S V → Type 0
  IsBound b = b.is_invalidated ≡ false → (g : Engine S V) × (b.engine ≡ some g) × AllBound g b

  grown :
      (g g' : Engine S V)
      → Grows g g'
      → (ios : List BoardIo) → All (IsBoundTo g) ios
      → All (IsBoundTo g') ios
  grown g g' more = All-mono λ io (e, at, found). (e, at, more (c_string io.name) e found)

  AllBound-grown : (g g' : Engine S V) (b : Board S V) → Grows g g' → AllBound g b → AllBound g' b
  AllBound-grown g g' b more (a, d, o) = (
    grown g g' more b.analog_inputs a,
    grown g g' more b.digital_inputs d,
    grown g g' more b.outputs o,
  )

  update-Grows :
      (behave : Behaviour S V) (g : Engine S V) (now : Time) → Grows g (Engine.update behave g now)
  unfolding Engine.update get_element
  update-Grows behave g now name e h = h

  -- A board that is not validated satisfies it.
  invalid-IsBound : (b : Board S V) → b.is_invalidated ≡ true → IsBound b
  invalid-IsBound b h e = absurd (false≢true (sym e ∙ h))

  update-invalid :
      (behave : Behaviour S V) (b : Board S V) (now : Time)
      → b.is_invalidated ≡ true
      → (c : Board S V) × (update behave b now ≡ some c) × IsBound c
  unfolding update run_checked validate_io
  update-invalid behave b now h = elim (Option-cases b.engine) [
    | inl e ↦ (
      b,
      ap (λ (d : Board S V). run_checked behave d now)
            (if_true b.is_invalidated _ _ h ∙ ap (validate_io b) e)
          ∙ if_true b.is_invalidated _ _ h,
      invalid-IsBound b h,
    )
    | inr (g, e) ↦
        let (c, run, flag, bound, engine) = update-Updated behave g b now e h in
        let found = board_found g b in
        (
          c,
          run,
          λ valid.
              let all = bound (true_of_not found (sym flag ∙ valid)) in
              (
                (if found && not b.is_paused then Engine.update behave g now else g),
                engine,
                if_cases (λ x. AllBound x c) (found && not b.is_paused)
                    (λ _.
                      AllBound-grown g (Engine.update behave g now) c (update-Grows behave g now)
                        all)
                    (λ _. all),
              ),
        )
  ]

  update-valid :
      (behave : Behaviour S V) (b : Board S V) (now : Time)
      → b.is_invalidated ≡ false
      → IsBound b
      → (c : Board S V) × (update behave b now ≡ some c) × IsBound c
  unfolding update run_checked
  update-valid behave b now h bound =
      let (g, attached, all) = bound h in
      let checked : update behave b now ≡ run_checked behave b now =
        ap (λ (d : Board S V). run_checked behave d now) (if_false b.is_invalidated _ _ h) in
      elim (Bool-cases b.is_paused) [
        | inl p ↦ (b, checked ∙ if_false b.is_invalidated _ _ h ∙ if_true b.is_paused _ _ p, bound)
        | inr p ↦
            let g' = Engine.update behave g now in
            (
              record b { engine = some g' },
              checked
                  ∙ if_false b.is_invalidated _ _ h
                  ∙ if_false b.is_paused _ _ p
                  ∙ ap (run_engine behave b now) attached,
              λ _. (g', refl, AllBound-grown g g' b (update-Grows behave g now) all),
            )
      ]

  update-IsBound :
      (behave : Behaviour S V) (b : Board S V) (now : Time)
      → IsBound b
      → (c : Board S V) × (update behave b now ≡ some c) × IsBound c
  update-IsBound behave b now bound = elim (Bool-cases b.is_invalidated) [
    | inl h ↦ update-invalid behave b now h
    | inr h ↦ update-valid behave b now h bound
  ]

  -- Adding an entry leaves the flag.
  added_invalid :
      (b c : Board S V) (o : Option (List BoardIo)) (put : List BoardIo → Board S V)
      (calls calls' : List HalCall)
      → ((ios : List BoardIo) → (put ios).is_invalidated ≡ b.is_invalidated)
      → (o >>= λ ios. let r : Board S V × List HalCall = (put ios, calls) in some r)
        ≡ some (c, calls')
      → b.is_invalidated ≡ true
      → IsBound c
  added_invalid b c none put calls calls' same e h = cc
  added_invalid b c (some ios) put calls calls' same e h =
      invalid-IsBound c (
        ap (λ (x : Board S V × List HalCall). x.0.is_invalidated) (sym (some_inj e)) ∙ same ios ∙ h)

  Step-IsBound :
      {behave : Behaviour S V} {b c : Board S V} → Step behave b c → IsBound b → IsBound c
  unfolding attach_engine start pause flag_input_for_update add_input add_output add_analog_input
  Step-IsBound (attaching b g) bound = invalid-IsBound (attach_engine b g) refl
  Step-IsBound (starting b) bound = bound
  Step-IsBound (pausing b) bound = bound
  Step-IsBound (flagging b) bound = bound
  Step-IsBound (growing b g g' e more) bound = λ valid.
      let (h, attached, all) = bound valid in
      (
        g',
        refl,
        AllBound-grown g g' b more
            (subst (λ (x : Engine S V). AllBound x b) (some_inj (sym attached ∙ e)) all),
      )
  Step-IsBound {behave} (running b c now e) bound =
      let (d, run, bound') = update-IsBound behave b now bound in
      subst IsBound (some_inj (sym run ∙ e)) bound'
  Step-IsBound (adding_input b c slot name port pin invert calls h e) bound =
      added_invalid b c (set_slot b.digital_inputs slot (board_io name port pin invert))
        (λ ios. record b { digital_inputs = ios }) _ calls (λ ios. refl) e h
  Step-IsBound (adding_output b c slot name port pin invert calls h e) bound =
      added_invalid b c (set_slot b.outputs slot (board_io name port pin invert))
        (λ ios. record b { outputs = ios }) _ calls (λ ios. refl) e h
  Step-IsBound (adding_analog_input b c slot name port pin calls h e) bound =
      added_invalid b c (set_slot b.analog_inputs slot (board_io name port pin false))
        (λ ios. record b { analog_inputs = ios }) _ calls (λ ios. refl) e h

  -- In every state that the operations reach from a board that is not validated, adding entries
  -- only before the validation and replacing the attached engine only by one that has its names, a
  -- cleared flag means that an engine is attached and every entry points at the element of its
  -- name, and the next Update does not follow a null engine.
  pub Reach-IsBound :
      (behave : Behaviour S V) (b c : Board S V) (now : Time)
      → b.is_invalidated ≡ true
      → Reach behave b c
      → IsBound c × ((d : Board S V) × (update behave c now ≡ some d))
  Reach-IsBound behave b c now fresh reach =
      let bound = reached reach in
      let (d, run, bound') = update-IsBound behave c now bound in (bound, (d, run))
    where
      reached : {c : Board S V} → Reach behave b c → IsBound c
      reached here = invalid-IsBound b fresh
      reached (next r st) = Step-IsBound st (reached r)

  -- Adding an input to a slot of a board that is validated leaves it marked as validated, although
  -- the new entry points at no element.
  pub add_input-unbound :
      (b : Board S V) (slot : ℕ) (name : Name) (port pin : ℕ) (invert : Bool)
      → b.is_invalidated ≡ false
      → slot < length b.digital_inputs
      → (c : Board S V) × (calls : List HalCall) × (add_input b slot name port pin invert
          ≡ some (c, calls))
        × ¬ IsBound c
  unfolding add_input
  add_input-unbound b slot name port pin invert valid h =
      let io = board_io name port pin invert in
      (
        record b { digital_inputs = set b.digital_inputs slot io },
        hal_calls b.has_hal (configure_digital_input io.gpio),
        rw (lt→ltb slot (length b.digital_inputs) h) refl,
        λ bound.
            let (g, attached, (analog, digital, outputs)) = bound valid in
            let (e, at, found) =
              All-get_elem? (IsBoundTo g) (set b.digital_inputs slot io) slot io digital
                (get_elem?-set_self b.digital_inputs slot io h) in
            null_element at,
      )
