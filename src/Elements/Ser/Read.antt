-- ===== src/Elements/Ser/Read.antt =====
-- Reading and dropping events, and the invariant that the recorder starts with.
use native.Mathlib.Decide.{dec_lt, dec_le}
use logic_elements.Base.{
  not_ltb, not_leb, drop_all, ℕ, zero, suc, ◌+◌, ◌-◌, ◌%◌, ◌≤◌, ◌≡◌, refl, sym, ap, ap₂, ◌∙◌, List,
  [], ◌∷◌, arith, take, drop, get_or, length-replicate, lt→ltb, le→leb,
}
use logic_elements.Base.Ring.{window, length-window, drop-window}
use logic_elements.Time.{Time}
use logic_elements.Elements.Ser.{
  max_ser_history, SerEvent, Ser, empty_event, ser, copy_events, get_event_log,
  remove_oldest_events,
}
use logic_elements.Elements.Ser.Log.{no_time, IsValid, events}

-- A new recorder is valid, and has no events.
pub ser-IsValid : (n : ℕ) (now : Time) → IsValid (ser n now) × (events (ser n now) ≡ [])
unfolding ser events window
ser-IsValid n now = (
  record {
    size = length-replicate max_ser_history (empty_event now);
    index_in = omega arith;
    count_in = omega arith;
  },
  refl,
)

copy_events-window :
    (s : Ser) (from left index retrieved : ℕ)
    → index ≡ (from + retrieved) % max_ser_history
    → retrieved ≤ s.event_log_count
    → copy_events s left index retrieved
      ≡ take left (
          window max_ser_history
            (empty_event no_time)
            s.event_log
            (from + retrieved)
            (s.event_log_count - retrieved))
unfolding copy_events window
copy_events-window s from zero index retrieved e h = refl
copy_events-window s from (suc left) index retrieved e h =
    let log = window max_ser_history (empty_event no_time) s.event_log in
    elim (dec_lt retrieved s.event_log_count) [
      | yes p ↦
          let more : s.event_log_count - retrieved ≡ suc (s.event_log_count - (retrieved + 1)) =
            omega arith in
          rw (lt→ltb retrieved s.event_log_count p, more, e)
            (ap
              (λ (l : List SerEvent).
                get_or s.event_log ((from + retrieved) % max_ser_history) (empty_event no_time) ∷ l)
              (copy_events-window s from left _ (retrieved + 1) (omega arith) (omega arith)
                ∙ ap (λ (k : ℕ). take left (log k (s.event_log_count - (retrieved + 1))))
                    (omega arith)))
      | no p ↦
          let done : s.event_log_count - retrieved ≡ 0 = omega arith in
          rw (not_ltb retrieved s.event_log_count p, done)
    ]

-- From a valid log, reading n events gives the n oldest, or all if there are fewer, oldest first.
pub get_event_log-events : (s : Ser) (n : ℕ) → IsValid s → get_event_log s n ≡ take n (events s)
unfolding get_event_log events
get_event_log-events s n v =
    copy_events-window s (s.event_log_index + max_ser_history - s.event_log_count) n _ 0
      (omega arith) (omega arith)
    ∙ ap₂ (λ (f k : ℕ). take n (window max_ser_history (empty_event no_time) s.event_log f k))
        (omega arith) (omega arith)

-- From a valid log, removing n events drops the n oldest, or all if there are fewer, and keeps the
-- log valid.
pub remove_oldest_events-events :
    (s : Ser) (n : ℕ)
    → IsValid s
    → (events (remove_oldest_events s n) ≡ drop n (events s)) × IsValid (remove_oldest_events s n)
unfolding remove_oldest_events events window
remove_oldest_events-events s n v =
    let d = empty_event no_time in
    elim (dec_le s.event_log_count n) [
      | yes p ↦ rw (le→leb s.event_log_count n p) (
        sym (
            drop_all n (events s) (
              omega (
                arith,
                length-window max_ser_history d s.event_log
                    (s.event_log_index + max_ser_history - s.event_log_count) s.event_log_count,
              ))),
        record { size = v.size; index_in = omega arith; count_in = omega arith },
      )
      | no p ↦ rw (not_leb s.event_log_count n p) (
        ap (λ (f : ℕ). window max_ser_history d s.event_log f (s.event_log_count - n)) (omega arith)
            ∙ sym (
                drop-window max_ser_history d s.event_log n
                  (s.event_log_index + max_ser_history - s.event_log_count) s.event_log_count
                  (omega arith)),
        record { size = v.size; index_in = v.index_in; count_in = omega arith },
      )
    ]
