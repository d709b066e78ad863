-- ===== src/Elements/Timer.antt =====
-- src/LogicElements/src/Elements/Digital/le_Timer.cpp: a timer with a pickup and a dropout delay.
pub mod Steps
pub mod Delay
use logic_elements.Base.{ℕ, Bool, true, false, Option, none, some, ◌==◌, if◌then◌else◌}
use logic_elements.Time
use logic_elements.Time.{Time, time, epoch, add, has_elapsed}

-- `TimerState`
pub data TimerState : Type 0 where
  idle pickup dropout : TimerState

-- `output` is the output port's value.
pub record Timer : Type 0 where
  pub pickup_length : Time
  pub dropout_length : Time
  pub state : TimerState
  pub pickup_time : Time
  pub dropout_time : Time
  pub output : Bool

-- The constructor, from the two delays in nanoseconds: the `uint32_t` that the code casts
-- `seconds * 1000000000` to.
unfoldable pub timer : ℕ → ℕ → Timer
timer pickup_nanoseconds dropout_nanoseconds = record {
  pickup_length = time pickup_nanoseconds 0 0 0 0 0;
  dropout_length = time dropout_nanoseconds 0 0 0 0 0;
  state = idle;
  pickup_time = epoch;
  dropout_time = epoch;
  output = false;
}

-- The cases of the `switch`.
from_idle : Timer → Time → Bool → Timer
from_idle r now input =
    if input
    then (if r.pickup_length.sub_second == 0
        then record r { state = dropout; dropout_time = add now r.dropout_length }
        else record r { state = pickup; pickup_time = add now r.pickup_length })
    else r

from_pickup : Timer → Time → Bool → Timer
from_pickup r now input =
    if input
    then (if has_elapsed now r.pickup_time
        then record r { state = dropout; dropout_time = add now r.dropout_length }
        else r)
    else record r { state = idle }

from_dropout : Timer → Time → Bool → Timer
from_dropout r now input =
    if input then r else if has_elapsed now r.dropout_time then record r { state = idle } else r

pub switch_state : TimerState → Timer → Time → Bool → Timer
unfolding from_idle from_pickup from_dropout
switch_state idle = from_idle
switch_state pickup = from_pickup
switch_state dropout = from_dropout

pub is_dropout : TimerState → Bool
is_dropout dropout = true
is_dropout _ = false

-- `Timer::Update` on the reading of `input`.
pub timer_update : Timer → Time → Option Bool → Timer
unfolding switch_state is_dropout
timer_update r now none = r
timer_update r now (some input) =
    let r' = switch_state r.state r now input in record r' { output = is_dropout r'.state }
