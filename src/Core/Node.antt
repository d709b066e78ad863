-- ===== src/Core/Node.antt =====
-- src/LogicElements/include/Core/le_Node.hpp: a node, which passes its input on, keeps a history, and
-- can be overridden. `T` is the type of the values, and `F` that of floats.
pub mod History
pub mod Override
use logic_elements.Base.{
  ℕ, ◌+◌, ◌-◌, ◌%◌, Bool, true, false, List, Option, none, some, ◌==◌, if◌then◌else◌, set,
  replicate,
}
use logic_elements.Base.Int.{ℤ}
use logic_elements.Time.{Time, epoch, subtract}

-- What the code uses of floats: 0.0f, addition, `>`, the seconds of a number of microseconds
-- (`static_cast<float>(n) / 1000000.0f`), and the nanoseconds of a number of seconds
-- (`static_cast<uint32_t>(x * 1000000000)`).
pub record FloatOps (F : Type 0) : Type 0 where
  pub f_zero : F
  pub f_add : F → F → F
  pub f_greater : F → F → Bool
  pub f_seconds : ℤ → F
  pub f_nanoseconds : F → ℕ

-- The fields of `Node<T>`; `output` is the output port's value.
pub record Node (T F : Type 0) : Type 0 where
  pub history_length : ℕ
  pub history : List T
  pub write : ℕ
  pub override_timer : F
  pub override_duration : F
  pub override_value : T
  pub override_original_value : T
  pub is_overridden : Bool
  pub last_time_stamp : Time
  pub output : T

module _ {T F : Type 0} (ops : FloatOps F) where
  -- The constructor. The history is not initialized in the code; here it holds `zero_value`.
  unfoldable pub node : T → ℕ → Node T F
  node zero_value history_length =
      let len = if history_length == 0 then 1 else history_length in
      record {
        history_length = len;
        history = replicate len zero_value;
        write = 0;
        override_timer = ops.f_zero;
        override_duration = ops.f_zero;
        override_value = zero_value;
        override_original_value = zero_value;
        is_overridden = false;
        last_time_stamp = epoch;
        output = zero_value;
      }

  -- The override part of `Node<T>::Update`, with the time step.
  unfoldable pub step_override : Node T F → F → Node T F
  step_override n time_step =
      if n.is_overridden
      then (if ops.f_greater n.override_timer n.override_duration
          then record n { output = n.override_original_value; is_overridden = false }
          else record n {
            output = n.override_value;
            override_timer = ops.f_add n.override_timer time_step;
          })
      else n

  -- The input part.
  unfoldable pub read_node_input : Node T F → Option T → Node T F
  read_node_input n none = n
  read_node_input n (some v) = if n.is_overridden then n else record n { output = v }

  -- The history part; the index counts down.
  unfoldable pub write_history : Node T F → Node T F
  write_history n = record n {
    history = set n.history n.write n.output;
    write = (n.write + n.history_length - 1) % n.history_length;
  }

  -- `Node<T>::Update`.
  unfoldable pub node_update : Node T F → Time → Option T → Node T F
  node_update n now input =
      let time_step = ops.f_seconds (subtract now n.last_time_stamp) in
      write_history
        (read_node_input (step_override (record n { last_time_stamp = now }) time_step) input)

  -- `Node<T>::OverrideValue`.
  unfoldable pub override_node : Node T F → T → F → Node T F
  override_node n value duration = record n {
    override_value = value;
    override_original_value = n.output;
    override_duration = duration;
    override_timer = ops.f_zero;
    is_overridden = true;
  }
