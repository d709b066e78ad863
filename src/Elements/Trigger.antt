-- ===== src/Elements/Trigger.antt =====
-- src/LogicElements/src/Elements/Digital/le_RTrig.cpp and le_FTrig.cpp.
use logic_elements.Base.{
  ◌≡◌, refl, ap, Bool, false, not, ◌&&◌, List, [], ◌∷◌, Option, none, some, get_or,
}

-- `_inputStates[0]`, the newer sample, `_inputStates[1]`, and the value of the output port.
pub record Trigger : Type 0 where
  pub state_0 : Bool
  pub state_1 : Bool
  pub output : Bool

-- The constructors of both classes.
unfoldable pub trigger : Trigger
trigger = record { state_0 = false; state_1 = false; output = false }

-- `RTrig::Update`.
unfoldable pub rtrig_update : Trigger → Option Bool → Trigger
rtrig_update r none = r
rtrig_update r (some input) = record {
  state_0 = input;
  state_1 = r.state_0;
  output = input && not r.state_0;
}

-- `FTrig::Update`.
unfoldable pub ftrig_update : Trigger → Option Bool → Trigger
ftrig_update r none = r
ftrig_update r (some input) = record {
  state_0 = input;
  state_1 = r.state_0;
  output = not input && r.state_0;
}

-- A trigger after a history of readings, the newest first.
pub run : (Trigger → Option Bool → Trigger) → List (Option Bool) → Trigger
run update [] = trigger
run update (input ∷ older) = update (run update older) input

-- What the connected readings were, the newest first.
abbrev pub samples : List (Option Bool) → List Bool
samples [] = []
samples (none ∷ older) = samples older
samples (some b ∷ older) = b ∷ samples older

-- A trigger holds the last two samples (false before the first), and its output is the edge
-- between them.
pub record Holds (edge : Bool → Bool → Bool) (history : List Bool) (r : Trigger) : Type 0 where
  pub newer : r.state_0 ≡ get_or history 0 false
  pub older : r.state_1 ≡ get_or history 1 false
  pub output_is : r.output ≡ edge (get_or history 0 false) (get_or history 1 false)

-- After any history of readings an RTrig holds the last two connected ones (false before the
-- first), and its output is true exactly for a rise from the older to the newer.
pub rtrig-Holds :
    (history : List (Option Bool))
    → Holds (λ new old. new && not old) (samples history) (run rtrig_update history)
unfolding run rtrig_update trigger
rtrig-Holds [] = record { newer = refl; older = refl; output_is = refl }
rtrig-Holds (none ∷ older) = rtrig-Holds older
rtrig-Holds (some b ∷ older) =
    let ih = rtrig-Holds older in
    record { newer = refl; older = ih.newer; output_is = ap (λ (o : Bool). b && not o) ih.newer }

-- After any history of readings an FTrig holds the last two connected ones (false before the
-- first), and its output is true exactly for a fall from the older to the newer.
pub ftrig-Holds :
    (history : List (Option Bool))
    → Holds (λ new old. not new && old) (samples history) (run ftrig_update history)
unfolding run ftrig_update trigger
ftrig-Holds [] = record { newer = refl; older = refl; output_is = refl }
ftrig-Holds (none ∷ older) = ftrig-Holds older
ftrig-Holds (some b ∷ older) =
    let ih = ftrig-Holds older in
    record { newer = refl; older = ih.newer; output_is = ap (λ (o : Bool). not b && o) ih.newer }

-- After any history of readings an RTrig and an FTrig hold the last two connected ones (false
-- before the first); the output of the RTrig is true exactly for a rise from the older to the
-- newer, and that of the FTrig for a fall.
pub run-Holds :
    (history : List (Option Bool))
    → Holds (λ new old. new && not old) (samples history) (run rtrig_update history)
      × Holds (λ new old. not new && old) (samples history) (run ftrig_update history)
run-Holds history = (rtrig-Holds history, ftrig-Holds history)
