-- ===== src/Core/Node/Override.antt =====
-- How long an override lasts, in the time that the node's updates count.
use logic_elements.Base.{
  ◌≡◌, refl, ap, ap₂, ◌∙◌, true, false, List, [], ◌∷◌, Option, none, some, if◌then◌else◌, if_true,
  if_false, if_cases,
}
use logic_elements.Time.{Time, subtract}
use logic_elements.Core.Node.{
  FloatOps, Node, node_update, step_override, read_node_input, write_history, override_node,
}

-- The timer after an update.
abbrev pub timer_after : {F : Type 0} → FloatOps F → F → Time → Time → F
timer_after ops timer last now = ops.f_add timer (ops.f_seconds (subtract now last))

module _ {T F : Type 0} (ops : FloatOps F) where
  -- An update: the time and the reading of the input.
  abbrev pub run_node : Node T F → List (Time × Option T) → Node T F
  run_node n [] = n
  run_node n ((now, input) ∷ updates) = run_node (node_update ops n now input) updates

  -- At each update the timer has not passed the duration.
  abbrev pub Within : F → F → Time → List (Time × Option T) → Type 0
  Within duration timer last [] = Unit {0}
  Within duration timer last ((now, input) ∷ updates) =
      (ops.f_greater timer duration ≡ false)
      × Within duration (timer_after ops timer last now) now updates

  -- The timer after the updates.
  abbrev pub timer_at : F → Time → List (Time × Option T) → F
  timer_at timer last [] = timer
  timer_at timer last ((now, input) ∷ updates) =
      timer_at (timer_after ops timer last now) now updates

  -- A node under an override.
  pub record Overridden (n : Node T F) (value original : T) (duration timer : F) : Type 0 where
    pub on : n.is_overridden ≡ true
    pub value_eq : n.override_value ≡ value
    pub original_eq : n.override_original_value ≡ original
    pub duration_eq : n.override_duration ≡ duration
    pub timer_eq : n.override_timer ≡ timer

  -- One update under an override that goes on.
  shown : Node T F → Time → Node T F
  shown n now = record n {
    last_time_stamp = now;
    output = n.override_value;
    override_timer = timer_after ops n.override_timer n.last_time_stamp now;
  }

  read_node_input-on :
      (n : Node T F) (input : Option T) → n.is_overridden ≡ true → read_node_input ops n input ≡ n
  unfolding read_node_input
  read_node_input-on n none on = refl
  read_node_input-on n (some v) on = if_true n.is_overridden _ _ on

  node_update-on :
      (n : Node T F) (now : Time) (input : Option T)
      → n.is_overridden ≡ true
      → ops.f_greater n.override_timer n.override_duration ≡ false
      → node_update ops n now input ≡ write_history ops (shown n now)
  unfolding node_update step_override shown
  node_update-on n now input on within =
      let stepped =
        if_true n.is_overridden _ _ on
        ∙ if_false (ops.f_greater n.override_timer n.override_duration) _ _ within in
      ap (λ (x : Node T F). write_history ops (read_node_input ops x input)) stepped
      ∙ ap (write_history ops) (read_node_input-on (shown n now) input on)

  read_node_input-off :
      (n : Node T F) (input : Option T)
      → n.is_overridden ≡ false
      → (read_node_input ops n input).output ≡ (elim input [ none ↦ n.output | some v ↦ v ])
  unfolding read_node_input
  read_node_input-off n none off = refl
  read_node_input-off n (some v) off =
      ap (λ (x : Node T F). x.output) (if_false n.is_overridden _ _ off)

  -- The update that finds the timer past the duration.
  node_update-over :
      (n : Node T F) (now : Time) (input : Option T)
      → n.is_overridden ≡ true
      → ops.f_greater n.override_timer n.override_duration ≡ true
      → (node_update ops n now input).output
        ≡ (elim input [ none ↦ n.override_original_value | some v ↦ v ])
  unfolding node_update step_override write_history
  node_update-over n now input on past =
      let stepped =
        if_true n.is_overridden _ _ on
        ∙ if_true (ops.f_greater n.override_timer n.override_duration) _ _ past in
      ap (λ (x : Node T F). (read_node_input ops x input).output) stepped
      ∙ read_node_input-off
          (record n {
            last_time_stamp = now;
            output = n.override_original_value;
            is_overridden = false;
          })
          input refl

  shown-Overridden :
      (n : Node T F) (value original : T) (duration timer : F) (now : Time)
      → Overridden n value original duration timer
      → Overridden
          (write_history ops (shown n now))
          value
          original
          duration
          (timer_after ops timer n.last_time_stamp now)
  unfolding shown write_history
  shown-Overridden n value original duration timer now o = record {
    on = o.on;
    value_eq = o.value_eq;
    original_eq = o.original_eq;
    duration_eq = o.duration_eq;
    timer_eq = ap (λ (t : F). timer_after ops t n.last_time_stamp now) o.timer_eq;
  }

  updates-Overridden :
      (n : Node T F) (value original : T) (duration timer : F) (updates : List (Time × Option T))
      → Overridden n value original duration timer
      → Within duration timer n.last_time_stamp updates
      → Overridden
          (run_node n updates)
          value
          original
          duration
          (timer_at timer n.last_time_stamp updates)
  unfolding shown write_history
  updates-Overridden n value original duration timer [] o w = o
  updates-Overridden n value original duration timer ((now, input) ∷ updates) o (w, ws) =
      let within = ap₂ ops.f_greater o.timer_eq o.duration_eq ∙ w in
      let next : Overridden (write_history ops (shown n now)) value original duration
          (timer_after ops timer n.last_time_stamp now) =
        shown-Overridden n value original duration timer now o in
      rw (node_update-on n now input o.on within) (
        updates-Overridden (write_history ops (shown n now)) value original duration
          (timer_after ops timer n.last_time_stamp now) updates next ws)

  -- While the timer of an override has not passed its duration at any update, an update shows the
  -- override's value; the first one at which the timer has passed it shows the input's reading, or
  -- the value from before the override where the input is not connected.
  pub run_node-override :
      (n : Node T F) (value : T) (duration : F) (updates : List (Time × Option T)) (now : Time)
      (input : Option T)
      → Within duration ops.f_zero n.last_time_stamp updates
      → let m = run_node (override_node ops n value duration) updates in
        let past = ops.f_greater (timer_at ops.f_zero n.last_time_stamp updates) duration in
        (node_update ops m now input).output
        ≡ (if past then elim input [ none ↦ n.output | some v ↦ v ] else value)
  unfolding override_node write_history shown
  run_node-override n value duration updates now input within =
      let m = run_node (override_node ops n value duration) updates in
      let start : Overridden (override_node ops n value duration) value n.output duration
          ops.f_zero =
        record {
          on = refl;
          value_eq = refl;
          original_eq = refl;
          duration_eq = refl;
          timer_eq = refl;
        } in
      let o =
        updates-Overridden (override_node ops n value duration) value n.output duration ops.f_zero
          updates start within in
      let test = ap₂ ops.f_greater o.timer_eq o.duration_eq in
      if_cases (λ x. (node_update ops m now input).output ≡ x)
        (ops.f_greater (timer_at ops.f_zero n.last_time_stamp updates) duration)
        (λ past.
          node_update-over m now input o.on (test ∙ past)
          ∙ ap (λ (x : T). elim input [ none ↦ x | some v ↦ v ]) o.original_eq)
        (λ before.
          ap (λ (x : Node T F). x.output) (node_update-on m now input o.on (test ∙ before))
          ∙ o.value_eq)
