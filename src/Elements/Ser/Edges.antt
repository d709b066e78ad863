-- ===== src/Elements/Ser/Edges.antt =====
-- What `SER::Update` records: the changes of its inputs, in order.
use logic_elements.Base.{
  get_or-set_ne, length, ◌≤◌, ℕ, ◌+◌, ◌<◌, ◌≡◌, refl, ap, ap₂, ◌∙◌, ◌≢◌, Bool, false, List, [], ◌∷◌,
  Option, none, some, if◌then◌else◌, arith, get_or, set, Bool-cases, inl, inr,
}
use logic_elements.Time.{Time}
use logic_elements.Elements.Ser.{
  rising_edge, falling_edge, SerEvent, Ser, log_event, differs, record_port, record_ports,
  ser_update,
}
use logic_elements.Elements.Ser.Previous.{kept, prev_state-ser_update}
use logic_elements.Elements.Ser.Log.{IsValid, events, enqueue, log_event-IsValid, events-log_event}

-- The queue after a list of events.
abbrev pub enqueue_all : List SerEvent → List SerEvent → List SerEvent
enqueue_all q [] = q
enqueue_all q (e ∷ es) = enqueue_all (enqueue q e) es

-- The events of one update: at each connected port whose value is not the one kept for it (`prev`)
-- an event with the owner of the source, the direction of the change and the time of the update.
abbrev pub edge : Time → List Bool → ℕ → Option (ℕ × Bool) → List SerEvent → List SerEvent
edge now prev i none rest = rest
edge now prev i (some (owner, current)) rest =
    if differs current (get_or prev i false)
    then record {
      element = some owner;
      event_type = if current then rising_edge else falling_edge;
      time = now;
    }
      ∷ rest
    else rest

abbrev pub edges : Time → List Bool → ℕ → List (Option (ℕ × Bool)) → List SerEvent
edges now prev i [] = []
edges now prev i (reading ∷ ports) = edge now prev i reading (edges now prev (i + 1) ports)

edge-set :
    (now : Time) (prev : List Bool) (i j : ℕ) (b : Bool) (o : Option (ℕ × Bool))
    (rest : List SerEvent)
    → i < j
    → edge now (set prev i b) j o rest ≡ edge now prev j o rest
edge-set now prev i j b none rest h = refl
edge-set now prev i j b (some (owner, current)) rest h = rw (get_or-set_ne prev b false (ne i j h))
  where
    ne : (i j : ℕ) → i < j → i ≢ j
    ne i j h e = omega arith

edges-set :
    (now : Time) (prev : List Bool) (i j : ℕ) (b : Bool) (ports : List (Option (ℕ × Bool)))
    → i < j
    → edges now (set prev i b) j ports ≡ edges now prev j ports
edges-set now prev i j b [] h = refl
edges-set now prev i j b (o ∷ ports) h =
    edge-set now prev i j b o _ h
    ∙ ap (edge now prev j o) (edges-set now prev i (j + 1) b ports (omega arith))

record_port-IsValid :
    (s : Ser) (now : Time) (i : ℕ) (o : Option (ℕ × Bool))
    → IsValid s
    → IsValid (record_port s now i o)
unfolding record_port
record_port-IsValid s now i none v = v
record_port-IsValid s now i (some (owner, current)) v =
    elim (Bool-cases (differs current (get_or s.prev_state i false))) [
      | inl e ↦ rw e (
          let w =
            log_event-IsValid s
              (record {
                element = some owner;
                event_type = if current then rising_edge else falling_edge;
                time = now;
              })
              v in
          record { size = w.size; index_in = w.index_in; count_in = w.count_in })
      | inr e ↦ rw e v
    ]

record_port-events :
    (s : Ser) (now : Time) (i : ℕ) (o : Option (ℕ × Bool)) (ports : List (Option (ℕ × Bool)))
    → IsValid s
    → enqueue_all
        (events (record_port s now i o))
        (edges now (record_port s now i o).prev_state (i + 1) ports)
      ≡ enqueue_all (events s) (edges now s.prev_state i (o ∷ ports))
unfolding record_port log_event events
record_port-events s now i none ports v = refl
record_port-events s now i (some (owner, current)) ports v =
    elim (Bool-cases (differs current (get_or s.prev_state i false))) [
      | inl e ↦ rw e (
          ap₂ enqueue_all
            (events-log_event s
              (record {
                element = some owner;
                event_type = if current then rising_edge else falling_edge;
                time = now;
              })
              v)
            (edges-set now s.prev_state i (i + 1) current ports (omega arith)))
      | inr e ↦ rw e
    ]

record_ports-events :
    (s : Ser) (now : Time) (i : ℕ) (ports : List (Option (ℕ × Bool)))
    → IsValid s
    → (events (record_ports s now i ports)
        ≡ enqueue_all (events s) (edges now s.prev_state i ports))
      × IsValid (record_ports s now i ports)
unfolding record_ports
record_ports-events s now i [] v = (refl, v)
record_ports-events s now i (o ∷ ports) v =
    let (ih, w) =
      record_ports-events (record_port s now i o) now (i + 1) ports
        (record_port-IsValid s now i o v) in
    (ih ∙ record_port-events s now i o ports v, w)

-- An update of a recorder with a valid log and a place for each port enqueues, in the order of the
-- ports, one event for each connected port whose value differs from the one that is kept for it,
-- where a full queue of a thousand events drops its oldest, keeps the log valid, and then keeps for
-- each port its reading where it is connected, and what was kept before where it is not.
pub ser_update-events :
    (s : Ser) (now : Time) (ports : List (Option (ℕ × Bool)))
    → IsValid s
    → length ports ≤ length s.prev_state
    → (events (ser_update s now ports) ≡ enqueue_all (events s) (edges now s.prev_state 0 ports))
      × IsValid (ser_update s now ports)
      × ((m : ℕ)
          → m < length ports
          → get_or (ser_update s now ports).prev_state m false
            ≡ kept ports m (get_or s.prev_state m false))
unfolding ser_update
ser_update-events s now ports v fits =
    let (logged, valid) = record_ports-events s now 0 ports v in
    (logged, valid, (λ m h. prev_state-ser_update s now ports m h fits))
