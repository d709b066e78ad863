-- ===== src/Elements/Counter.antt =====
-- src/LogicElements/src/Elements/Digital/le_Counter.cpp.
use logic_elements.Base.{
  ◌≡◌, refl, Bool, true, false, not, ◌&&◌, List, [], ◌∷◌, Option, none, some, ℕ, ◌+◌, leb,
  if◌then◌else◌, u16, arith,
}

-- `_inputStates` holds the last two samples of `count_up`; `output` is the output port's value.
pub record Counter : Type 0 where
  pub count_final : ℕ
  pub count : ℕ
  pub state_0 : Bool
  pub state_1 : Bool
  pub output : Bool

-- The constructor.
unfoldable pub counter : ℕ → Counter
counter count_final = record {
  count_final = count_final;
  count = 0;
  state_0 = false;
  state_1 = false;
  output = false;
}

-- `Counter::Update` past its test for connections: shift, reset or count, and set the output.
unfoldable pub count_step : Counter → Bool → Bool → Counter
count_step c up reset =
    let rtrig = up && not c.state_0 in
    let count = if reset then 0 else if rtrig then u16 (c.count + 1) else c.count in
    record c { count = count; state_0 = up; state_1 = c.state_0; output = leb c.count_final count }

-- `Counter::Update` on the readings of `count_up` and `reset`: with either not connected it does
-- nothing.
unfoldable pub counter_update : Counter → Option Bool → Option Bool → Counter
counter_update c none reset = c
counter_update c (some up) none = c
counter_update c (some up) (some reset) = count_step c up reset

-- A counter after a history of readings, the newest first.
pub run : ℕ → List (Option Bool × Option Bool) → Counter
run count_final [] = counter count_final
run count_final ((up, reset) ∷ older) = counter_update (run count_final older) up reset

-- The history where both ports were connected.
abbrev pub samples : List (Option Bool × Option Bool) → List (Bool × Bool)
samples [] = []
samples ((none, reset) ∷ older) = samples older
samples ((some up, none) ∷ older) = samples older
samples ((some up, some reset) ∷ older) = (up, reset) ∷ samples older

abbrev pub last_up : List (Bool × Bool) → Bool
last_up [] = false
last_up ((up, reset) ∷ older) = up

-- The rising edges of `count_up` since the last sample with `reset`.
abbrev pub edges : List (Bool × Bool) → ℕ
edges [] = 0
edges ((up, true) ∷ older) = 0
edges ((up, false) ∷ older) = (if up && not (last_up older) then 1 else 0) + edges older

abbrev pub has_samples : List (Bool × Bool) → Bool
has_samples [] = false
has_samples (s ∷ older) = true

-- The counter counts, modulo 2 ^ 16, the rising edges since the last reset, and once both inputs
-- were read its output says that the count has reached the final value.
pub record Counts (count_final : ℕ) (history : List (Bool × Bool)) (c : Counter) : Type 0 where
  pub final_is : c.count_final ≡ count_final
  pub newer : c.state_0 ≡ last_up history
  pub count_is : c.count ≡ u16 (edges history)
  pub output_is : c.output ≡ (has_samples history && leb count_final c.count)

count_step-Counts :
    (n : ℕ) (h : List (Bool × Bool)) (c : Counter) (up reset : Bool)
    → Counts n h c
    → Counts n ((up, reset) ∷ h) (count_step c up reset)
unfolding count_step
count_step-Counts n h c up true v = ground arith
count_step-Counts n h c up false v = ground arith

-- After any history of readings a counter holds, modulo 2 ^ 16, the rising edges of its count input
-- since the last reset, counting only updates with both inputs connected, and once there was one
-- its output says whether the count has reached the final value.
pub run-Counts :
    (n : ℕ) (history : List (Option Bool × Option Bool))
    → Counts n (samples history) (run n history)
unfolding run counter counter_update
run-Counts n [] = record { final_is = refl; newer = refl; count_is = refl; output_is = refl }
run-Counts n ((none, reset) ∷ older) = run-Counts n older
run-Counts n ((some up, none) ∷ older) = run-Counts n older
run-Counts n ((some up, some reset) ∷ older) =
    count_step-Counts n (samples older) (run n older) up reset (run-Counts n older)
