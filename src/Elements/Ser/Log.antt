-- ===== src/Elements/Ser/Log.antt =====
-- The recorder's log against a queue that holds the last thousand events, oldest first.
use native.Mathlib.Decide.{dec_lt}
use logic_elements.Base.{
  not_ltb, lt→ltb, ℕ, suc, ◌+◌, ◌-◌, ◌%◌, ◌≤◌, ◌<◌, ◌≡◌, sym, ap, ◌∙◌, List, [], ◌∷◌, ◌++◌, ltb,
  if◌then◌else◌, arith, length, drop, set, length-set,
}
use logic_elements.Base.Ring.{window, length-window, window_cong, window-set_end, drop-window}
use logic_elements.Time.{Time}
use logic_elements.Elements.Ser.{max_ser_history, SerEvent, Ser, empty_event, log_event}

abbrev pub no_time : Time
no_time = record { year = 0; day = 0; hour = 0; minute = 0; second = 0; sub_second = 0 }

-- The logged events, oldest first.
unfoldable pub events : Ser → List SerEvent
events s =
    window max_ser_history (empty_event no_time) s.event_log
      (s.event_log_index + max_ser_history - s.event_log_count) s.event_log_count

pub record IsValid (s : Ser) : Type 0 where
  pub size : length s.event_log ≡ max_ser_history
  pub index_in : s.event_log_index < max_ser_history
  pub count_in : s.event_log_count ≤ max_ser_history

-- A queue of at most `max_ser_history` events: a full one drops its oldest.
abbrev pub drop_oldest : List SerEvent → List SerEvent
drop_oldest q = if ltb (length q) max_ser_history then q else drop 1 q

abbrev pub enqueue : List SerEvent → SerEvent → List SerEvent
enqueue q e = drop_oldest q ++ e ∷ []

pub log_event-IsValid : (s : Ser) (e : SerEvent) → IsValid s → IsValid (log_event s e)
unfolding log_event
log_event-IsValid s e v = ground (arith, length-set s.event_log s.event_log_index e)

-- One write of the log in terms of positions: `from` is the oldest event's.
write_end :
    (log : List SerEvent) (i from from' n m : ℕ) (e : SerEvent)
    → length log ≡ max_ser_history
    → n < max_ser_history
    → i ≡ (from + n) % max_ser_history
    → from' % max_ser_history ≡ from % max_ser_history
    → m ≡ suc n
    → window max_ser_history (empty_event no_time) (set log i e) from' m
      ≡ window max_ser_history (empty_event no_time) log from n ++ e ∷ []
write_end log i from from' n m e size h at same more =
    rw (more, at)
      (window_cong max_ser_history _ _ from' from (suc n) same
        ∙ window-set_end max_ser_history _ log from n e (omega arith) h)

-- Logging an event to a valid log puts it at the end of the queue of the last thousand events,
-- where a full queue drops its oldest.
pub events-log_event :
    (s : Ser) (e : SerEvent) → IsValid s → events (log_event s e) ≡ enqueue (events s) e
unfolding log_event events
events-log_event s e v =
    let i = s.event_log_index in
    let c = s.event_log_count in
    let log = s.event_log in
    let l = length-window max_ser_history (empty_event no_time) log (i + max_ser_history - c) c in
    elim (dec_lt c max_ser_history) [
      | yes h ↦
          rw (l, lt→ltb c max_ser_history h)
            (write_end log i (i + max_ser_history - c) _ c _ e v.size h (omega arith) (omega arith)
              (omega arith))
      | no h ↦
          rw (l, not_ltb c max_ser_history h)
            (write_end log i (i + max_ser_history - c + 1) _ (c - 1) c e v.size (omega arith)
                (omega arith) (omega arith) (omega arith)
              ∙ ap (λ q. q ++ e ∷ []) (sym (drop-window max_ser_history _ log 1 _ c (omega arith))))
    ]
