-- ===== src/Examples/Digital.antt =====
-- Readings of the digital elements, and a recorder.
use logic_elements.Base.{
  ℕ, zero, suc, ◌≡◌, refl, Bool, true, false, List, [], ◌∷◌, Option, none, some, length, ◌≤◌, ◌<◌,
  get_or, arith,
}
use logic_elements.Time.{Time}
use logic_elements.Elements.Counter as Counter
use logic_elements.Elements.Counter.{Counts, run-Counts}
use logic_elements.Elements.Ser.{SerEvent, rising_edge, ser, ser_update}
use logic_elements.Elements.Ser.Log.{events, IsValid}
use logic_elements.Elements.Ser.Edges.{enqueue_all, edges, ser_update-events}
use logic_elements.Elements.Ser.Previous.{kept}
use logic_elements.Elements.Ser.Read.{ser-IsValid}

abbrev readings : List (Option Bool)
readings = some true ∷ none ∷ some false ∷ []

abbrev counted : List (Option Bool × Option Bool)
counted =
    (some true, some false)
    ∷ (some false, some false)
    ∷ (some true, some false)
    ∷ (none, some true)
    ∷ []

run-Counts_example : Counts 2 (Counter.samples counted) (Counter.run 2 counted)
run-Counts_example = run-Counts 2 counted

-- Two sets of two signals, the second set's second signal not connected.
abbrev signals : ℕ → ℕ → Option ℕ
signals zero i = some i
signals (suc s) zero = some 7
signals (suc s) (suc i) = none

abbrev now : Time
now = record { year = 54; day = 100; hour = 12; minute = 0; second = 0; sub_second = 0 }

abbrev risen : SerEvent
risen = record { element = some 3; event_type = rising_edge; time = now }

abbrev ports : List (Option (ℕ × Bool))
ports = some (4, true) ∷ none ∷ []

two_places : length ports ≤ length (ser 2 now).prev_state
unfolding ser
two_places = omega arith

ser_update-events_example :
    (events (ser_update (ser 2 now) now ports)
      ≡ enqueue_all (events (ser 2 now)) (edges now (ser 2 now).prev_state 0 ports))
    × IsValid (ser_update (ser 2 now) now ports)
    × ((m : ℕ)
        → m < 2
        → get_or (ser_update (ser 2 now) now ports).prev_state m false
          ≡ kept ports m (get_or (ser 2 now).prev_state m false))
ser_update-events_example = ser_update-events (ser 2 now) now ports (ser-IsValid 2 now).0 two_places

two_ports : length ports ≡ 2
two_ports = refl
