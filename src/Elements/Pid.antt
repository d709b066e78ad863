-- ===== src/Elements/Pid.antt =====
-- src/LogicElements/src/Elements/Control/le_PID.cpp and
-- src/LogicElements/include/Elements/Control/le_PID.hpp: the PID controller.
pub mod Limits
use logic_elements.Base.{
  ℕ, zero, suc, ◌+◌, ◌-◌, ◌%◌, ◌^◌, List, Option, none, some, if◌then◌else◌, get_or, set, ltb,
  ◌>>=◌, u8,
}
use logic_elements.Time.{Time, epoch, subtract}
use logic_elements.Elements.Floats.{Floats, f_greater}

-- The fields of `PID`, with the value of its output port.
pub record Pid (F : Type 0) : Type 0 where
  pub p : F
  pub i : F
  pub d : F
  pub output_min : F
  pub output_max : F
  pub integral : F
  pub derivative_terms : ℕ
  pub derivative_write : ℕ
  pub buffer_in : List F
  pub buffer_out : List F
  pub derivative_coefficient : F
  pub last_time_stamp : Time
  pub output : F

module _ {F : Type 0} (ops : Floats F) where
  abbrev pub zero_float : F
  zero_float = ops.f_decimal 0 0

  -- The constructor, from the memory that it finds in the two buffers.
  abbrev pub pid : F → F → F → F → F → ℕ → List F → List F → Pid F
  pid p i d output_min output_max derivative_terms memory_in memory_out = record {
    p = p;
    i = i;
    d = d;
    output_min = output_min;
    output_max = output_max;
    integral = zero_float;
    derivative_terms = derivative_terms;
    derivative_write = (derivative_terms + 2 ^ 8 - 1) % 2 ^ 8;
    buffer_in = memory_in;
    buffer_out = memory_out;
    derivative_coefficient = ops.f_divide (ops.f_decimal 1 0) (ops.f_count derivative_terms);
    last_time_stamp = epoch;
    output = zero_float;
  }

  -- `GetProportional`
  abbrev pub get_proportional : Pid F → F → F
  get_proportional r error = ops.f_multiply r.p error

  -- `GetIntegral`
  abbrev pub get_integral : Pid F → F → F → Pid F × F
  get_integral r error time_step =
      let integral = ops.f_add r.integral (ops.f_multiply error time_step) in
      (record r { integral = integral }, ops.f_multiply r.i integral)

  -- The loop of `GetDerivative`, with the rounds left.
  unfoldable pub derivative_loop : Pid F → ℕ → ℕ → F → F
  derivative_loop r zero i derivative = derivative
  derivative_loop r (suc left) i derivative =
      let index = u8 ((r.derivative_write + i + 1) % r.derivative_terms) in
      let change =
        ops.f_subtract (get_or r.buffer_in index zero_float)
          (get_or r.buffer_out index zero_float) in
      derivative_loop r left (i + 1)
        (ops.f_add derivative (ops.f_multiply change r.derivative_coefficient))

  -- `GetDerivative`; `none` is a write outside the buffers.
  unfoldable pub get_derivative : Pid F → F → F → Option (Pid F × F)
  get_derivative r error time_step =
      let written = record r { buffer_in = set r.buffer_in r.derivative_write error } in
      let derivative = derivative_loop written r.derivative_terms 0 zero_float in
      let shifted = record written {
        buffer_out = set r.buffer_out r.derivative_write error;
        derivative_write = u8 ((r.derivative_write + r.derivative_terms - 1) % r.derivative_terms);
      } in
      if ltb r.derivative_write r.derivative_terms
      then some (shifted, ops.f_divide (ops.f_multiply r.d derivative) time_step)
      else none

  -- `Clamp`
  unfoldable pub clamp : F → F → F → F
  clamp value low high =
      if ops.f_less value low then low else if f_greater ops value high then high else value

  abbrev pub set_output : Pid F → F → Pid F
  set_output r output = record r { output = clamp output r.output_min r.output_max }

  -- The sum of the components: without the derivative where its gain is 0.
  unfoldable pub control : Pid F → F → F → Option (Pid F)
  control r error time_step =
      let integrated = get_integral r error time_step in
      let sum = ops.f_add (get_proportional r error) integrated.1 in
      if ops.f_equal r.d zero_float
      then some (set_output integrated.0 sum)
      else get_derivative integrated.0 error time_step >>= λ x.
          some (set_output x.0 (ops.f_add sum x.1))

  -- `Update`, for the readings of the setpoint and of the feedback.
  unfoldable pub pid_update : Pid F → Time → Option F → Option F → Option (Pid F)
  pid_update r now (some setpoint) (some feedback) =
      control (record r { last_time_stamp = now }) (ops.f_subtract setpoint feedback)
        (ops.f_seconds (subtract now r.last_time_stamp))
  pid_update r now setpoint feedback = some (record r { last_time_stamp = now })
