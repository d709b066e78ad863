-- ===== src/Elements/Pid/Limits.antt =====
-- The limits of a PID controller's output, and of the index into its buffers.
use logic_elements.Base.{
  ℕ, ◌+◌, ◌-◌, ◌<◌, ◌≡◌, refl, ◌∙◌, true, false, List, [], ◌∷◌, Option, none, some, if_cases,
  if_true, length, length-set, ltb, lt→ltb, arith, ◌>>=◌,
}
use native.Mathlib.Nat.{mod-lt}
use logic_elements.Time.{Time}
use logic_elements.Elements.Floats.{Floats, f_greater}
use logic_elements.Elements.Pid.{
  Pid, pid, pid_update, control, get_derivative, get_integral, clamp, set_output, zero_float,
}

module _ {F : Type 0} (ops : Floats F) where
  -- The buffers have their entries, the index is one of them, and the settings are those given.
  pub record IsValid (low high : F) (terms : ℕ) (r : Pid F) : Type 0 where
    pub low_eq : r.output_min ≡ low
    pub high_eq : r.output_max ≡ high
    pub terms_eq : r.derivative_terms ≡ terms
    pub write_lt : r.derivative_write < terms
    pub in_length : length r.buffer_in ≡ terms
    pub out_length : length r.buffer_out ≡ terms

  -- Neither below the least nor above the greatest output.
  abbrev pub InLimits : F → F → F → Type 0
  InLimits low high x = (ops.f_less x low ≡ false) × (f_greater ops x high ≡ false)

  -- Nothing is less than itself, and the limits are in order.
  pub record AreLimits (low high : F) : Type 0 where
    pub low_less_low : ops.f_less low low ≡ false
    pub high_less_high : ops.f_less high high ≡ false
    pub high_less_low : ops.f_less high low ≡ false

  clamp-InLimits : (x low high : F) → AreLimits low high → InLimits low high (clamp ops x low high)
  unfolding clamp
  clamp-InLimits x low high h =
      if_cases (InLimits low high) (ops.f_less x low) (λ _. (h.low_less_low, h.high_less_low))
        (λ e.
          if_cases (InLimits low high) (f_greater ops x high)
            (λ _. (h.high_less_low, h.high_less_high)) (λ e'. (e, e')))

  -- A controller after a history of updates, the newest first.
  abbrev pub run_pid : Pid F → List (Time × Option F × Option F) → Option (Pid F)
  run_pid r [] = some r
  run_pid r ((now, setpoint, feedback) ∷ older) = do
    x ← run_pid r older
    pid_update ops x now setpoint feedback

  module _ (low high : F) (terms : ℕ) (limits : AreLimits low high) (few : terms < 256) where
    Valid : Pid F → Type 0
    Valid r = IsValid low high terms r

    -- The fields that it does not read.
    changed-Valid :
        (r : Pid F) (now : Time) (integral output : F)
        → Valid r
        → Valid (record r { last_time_stamp = now; integral = integral; output = output })
    unfolding Valid
    changed-Valid r now integral output v = record {
      low_eq = v.low_eq;
      high_eq = v.high_eq;
      terms_eq = v.terms_eq;
      write_lt = v.write_lt;
      in_length = v.in_length;
      out_length = v.out_length;
    }

    -- What an update leaves.
    Limited : Option (Pid F) → Type 0
    Limited o = (r : Pid F) × (o ≡ some r) × Valid r × InLimits low high r.output

    set_output-Limited : (r : Pid F) (x : F) → Valid r → Limited (some (set_output ops r x))
    unfolding Limited Valid
    set_output-Limited r x v = (
      set_output ops r x,
      refl,
      changed-Valid r r.last_time_stamp r.integral _ v,
      rw (v.low_eq, v.high_eq) (clamp-InLimits x low high limits),
    )

    get_derivative-Valid :
        (r : Pid F) (error time_step : F)
        → Valid r
        → (x : Pid F × F) × (get_derivative ops r error time_step ≡ some x) × Valid x.0
    unfolding get_derivative Valid
    get_derivative-Valid r error time_step v =
        let test : ltb r.derivative_write r.derivative_terms ≡ true =
          lt→ltb r.derivative_write r.derivative_terms (omega (arith, v.write_lt, v.terms_eq)) in
        (
          _,
          if_true (ltb r.derivative_write r.derivative_terms) _ _ test,
          record {
            low_eq = v.low_eq;
            high_eq = v.high_eq;
            terms_eq = v.terms_eq;
            write_lt = rw v.terms_eq (
                omega (
                  arith,
                  mod-lt (r.derivative_write + terms - 1) {m = terms} (omega (arith, v.write_lt)),
                ));
            in_length = length-set r.buffer_in r.derivative_write error ∙ v.in_length;
            out_length = length-set r.buffer_out r.derivative_write error ∙ v.out_length;
          },
        )

    control-Limited :
        (r : Pid F) (error time_step : F) → Valid r → Limited (control ops r error time_step)
    unfolding control Valid
    control-Limited r error time_step v =
        let t = (get_integral ops r error time_step).0 in
        let v' : Valid t = changed-Valid r r.last_time_stamp t.integral r.output v in
        if_cases Limited (ops.f_equal r.d (zero_float ops)) (λ _. set_output-Limited t _ v')
          (λ _.
            let (x, e, v'') = get_derivative-Valid t error time_step v' in
            rw e (set_output-Limited x.0 _ v''))

    pid_update-Limited :
        (r : Pid F) (now : Time) (setpoint feedback : F)
        → Valid r
        → Limited (pid_update ops r now (some setpoint) (some feedback))
    unfolding pid_update Valid
    pid_update-Limited r now setpoint feedback v =
        control-Limited (record r { last_time_stamp = now }) _ _
          (changed-Valid r now r.integral r.output v)

    -- An update that returns, with a controller that is still valid.
    Returns : Option (Pid F) → Type 0
    Returns o = (r : Pid F) × (o ≡ some r) × Valid r

    pid_update-Returns :
        (r : Pid F) (now : Time) (setpoint feedback : Option F)
        → Valid r
        → Returns (pid_update ops r now setpoint feedback)
    unfolding pid_update Valid Returns Limited
    pid_update-Returns r now (some setpoint) (some feedback) v =
        let (x, e, v', inside) = pid_update-Limited r now setpoint feedback v in (x, e, v')
    pid_update-Returns r now (some setpoint) none v =
        (_, refl, changed-Valid r now r.integral r.output v)
    pid_update-Returns r now none feedback v = (_, refl, changed-Valid r now r.integral r.output v)

    run_pid-Returns :
        (r : Pid F) (history : List (Time × Option F × Option F))
        → Valid r
        → Returns (run_pid r history)
    unfolding Returns
    run_pid-Returns r [] v = (r, refl, v)
    run_pid-Returns r ((now, setpoint, feedback) ∷ older) v =
        let (x, e, v') = run_pid-Returns r older v in
        let (y, e', v'') = pid_update-Returns x now setpoint feedback v' in (y, rw e e', v'')

  -- A new PID controller with 1 to 255 derivative terms, whose limits are in order and not less
  -- than themselves, never writes outside its buffers in any history of updates, and each update
  -- with both inputs connected leaves its output neither below the least nor above the greatest
  -- output.
  pub run_pid-InLimits :
      (p i d low high : F) (terms : ℕ) (memory_in memory_out : List F)
      (history : List (Time × Option F × Option F)) (now : Time) (setpoint feedback : F)
      → AreLimits low high
      → 0 < terms
      → terms < 256
      → length memory_in ≡ terms
      → length memory_out ≡ terms
      → let start = pid ops p i d low high terms memory_in memory_out in
        (r : Pid F) × (run_pid start ((now, some setpoint, some feedback) ∷ history) ≡ some r)
        × InLimits low high r.output
  unfolding Valid Returns Limited
  run_pid-InLimits p i d low high terms memory_in memory_out history now setpoint feedback limits
        some_terms few hi ho =
      let start = pid ops p i d low high terms memory_in memory_out in
      let v : IsValid low high terms start = record {
        low_eq = refl;
        high_eq = refl;
        terms_eq = refl;
        write_lt = omega arith;
        in_length = hi;
        out_length = ho;
      } in
      let (x, e, v') = run_pid-Returns low high terms limits few start history v in
      let (r, e', v'', inside) =
        pid_update-Limited low high terms limits few x now setpoint feedback v' in
      (r, rw e e', inside)
