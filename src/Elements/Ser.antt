-- ===== src/Elements/Ser.antt =====
-- src/LogicElements/src/Elements/Digital/le_SER.cpp: the sequence-of-events recorder.
pub mod Log
pub mod Edges
pub mod Previous
pub mod Read
use logic_elements.Base.{
  ℕ, zero, suc, ◌+◌, ◌-◌, ◌%◌, Bool, true, false, List, [], ◌∷◌, Option, none, some, get_or, set,
  replicate, ltb, leb, ◌==◌, if◌then◌else◌, u16,
}
use logic_elements.Time.{Time}

-- MAX_SER_HISTORY
abbrev pub max_ser_history : ℕ
max_ser_history = 1000

-- `SEREventType`
pub data SerEventType : Type 0 where
  rising_edge falling_edge no_event : SerEventType

-- `SEREvent`. The element is named by its place in the store of elements, `none` for a null pointer.
pub record SerEvent : Type 0 where
  pub element : Option ℕ
  pub event_type : SerEventType
  pub time : Time

pub record Ser : Type 0 where
  pub event_log : List SerEvent
  pub event_log_index : ℕ
  pub event_log_count : ℕ
  pub prev_state : List Bool

-- What the constructor fills the log with.
abbrev pub empty_event : Time → SerEvent
empty_event now = record { element = none; event_type = no_event; time = now }

-- The constructor; `now` is what `Time::GetTime` returns.
unfoldable pub ser : ℕ → Time → Ser
ser n_inputs now = record {
  event_log = replicate max_ser_history (empty_event now);
  event_log_index = 0;
  event_log_count = 0;
  prev_state = replicate n_inputs false;
}

-- The writes to the log in `SER::Update`: the event, the index, the count.
pub log_event : Ser → SerEvent → Ser
log_event s e = record s {
  event_log = set s.event_log s.event_log_index e;
  event_log_index = (s.event_log_index + 1) % max_ser_history;
  event_log_count =
      if ltb s.event_log_count max_ser_history then s.event_log_count + 1 else s.event_log_count;
}

abbrev pub differs : Bool → Bool → Bool
differs true false = true
differs false true = true
differs _ _ = false

-- The body of the loop of `SER::Update` at port `i`. A reading is the element that owns the source
-- and the value there.
pub record_port : Ser → Time → ℕ → Option (ℕ × Bool) → Ser
record_port s now i none = s
record_port s now i (some (owner, current)) =
    if differs current (get_or s.prev_state i false)
    then record (log_event s (record {
      element = some owner;
      event_type = if current then rising_edge else falling_edge;
      time = now;
    })) { prev_state = set s.prev_state i current }
    else s

-- The loop, over the ports from `i` on.
pub record_ports : Ser → Time → ℕ → List (Option (ℕ × Bool)) → Ser
record_ports s now i [] = s
record_ports s now i (reading ∷ ports) =
    record_ports (record_port s now i reading) now (i + 1) ports

-- `SER::Update`.
pub ser_update : Ser → Time → List (Option (ℕ × Bool)) → Ser
ser_update s now ports = record_ports s now 0 ports

-- The loop of `SER::GetEventLog`, with `left` events still asked for.
pub copy_events : Ser → ℕ → ℕ → ℕ → List SerEvent
copy_events s zero index retrieved = []
copy_events s (suc left) index retrieved =
    let rest = copy_events s left (u16 ((index + 1) % max_ser_history)) (retrieved + 1) in
    if ltb retrieved s.event_log_count
    then get_or s.event_log index (
        empty_event
          (record { year = 0; day = 0; hour = 0; minute = 0; second = 0; sub_second = 0 }))
      ∷ rest
    else []

-- `SER::GetEventLog`: the events that it copies to the buffer; it returns their number.
pub get_event_log : Ser → ℕ → List SerEvent
get_event_log s n_events =
    copy_events s n_events
      ((s.event_log_index + max_ser_history - s.event_log_count) % max_ser_history) 0

-- `SER::RemoveOldestEvents`.
pub remove_oldest_events : Ser → ℕ → Ser
remove_oldest_events s n_events =
    if leb s.event_log_count n_events
    then record s { event_log_index = 0; event_log_count = 0 }
    else record s { event_log_count = s.event_log_count - n_events }

-- `SER::IsEventLogFull`.
pub is_event_log_full : Ser → Bool
is_event_log_full s = s.event_log_count == max_ser_history
