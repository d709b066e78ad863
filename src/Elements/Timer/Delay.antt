-- ===== src/Elements/Timer/Delay.antt =====
-- How the delays of a timer come out on a clock that does not go wrong.
use logic_elements.Base.{
  Bool-cases, inl, inr, ℕ, ◌%◌, ◌^◌, ◌<◌, ◌≡◌, sym, ap, ◌∙◌, ◌≢◌, Bool, true, false, not, ◌||◌,
  List, [], ◌∷◌, some,
}
use logic_elements.Time.{Time, subsecond_fraction, time, add, has_elapsed}
use logic_elements.Elements.Timer.{Timer, idle, pickup, dropout, timer, timer_update}
use logic_elements.Elements.Timer.Steps.{
  IsClock, delay-eq, passed, has_elapsed-passed, high_dropout, high_pickup, low_idle, low_dropout,
  rises, skips, picks_up,
}

-- A run of updates with one value on the input, oldest first.
pub run : Timer → Bool → List Time → Timer
run r input [] = r
run r input (now ∷ later) = run (timer_update r now (some input)) input later

abbrev pub Clocks : List Time → Type 0
Clocks [] = Unit {0}
Clocks (t ∷ ts) = IsClock t × Clocks ts

abbrev pub some_passed : Time → ℕ → List Time → Bool
some_passed t p [] = false
some_passed t p (now ∷ later) = passed t p now || some_passed t p later

-- Once on, the timer stays on while the input does.
run-dropout :
    (r : Timer) (ts : List Time)
    → r.state ≡ dropout
    → r.output ≡ true
    → (run r true ts).output ≡ true
unfolding run
run-dropout r [] e o = o
run-dropout r (now ∷ later) e o =
    let (e', o') = high_dropout r now e in run-dropout (timer_update r now (some true)) later e' o'

run-idle :
    (r : Timer) (ts : List Time)
    → r.state ≡ idle
    → r.output ≡ false
    → (run r false ts).output ≡ false
unfolding run
run-idle r [] e o = o
run-idle r (now ∷ later) e o =
    let (e', o') = low_idle r now e in run-idle (timer_update r now (some false)) later e' o'

module _ (t : Time) (p : ℕ) (c : IsClock t) (h : p < 2 ^ 32) where
  run-pickup :
      (r : Timer) (ts : List Time)
      → Clocks ts
      → r.state ≡ pickup
      → r.output ≡ false
      → r.pickup_time ≡ add t (time p 0 0 0 0 0)
      → (run r true ts).output ≡ some_passed t p ts
  unfolding run
  run-pickup r [] cs e o d = o
  run-pickup r (now ∷ later) cs e o d =
      let (e', o', d') = high_pickup r now e in
      let done : has_elapsed now r.pickup_time ≡ passed t p now =
        ap (has_elapsed now) d ∙ has_elapsed-passed t now p c cs.0 h in
      elim (Bool-cases (passed t p now)) [
        | inl z ↦ rw z (
            run-dropout (timer_update r now (some true)) later (rw (done ∙ z) at e')
              (o' ∙ done ∙ z))
        | inr z ↦ rw z (
            run-pickup (timer_update r now (some true)) later cs.1 (rw (done ∙ z) at e')
              (o' ∙ done ∙ z) (d' ∙ d))
      ]

  run-falling :
      (r : Timer) (ts : List Time)
      → Clocks ts
      → r.state ≡ dropout
      → r.output ≡ true
      → r.dropout_time ≡ add t (time p 0 0 0 0 0)
      → (run r false ts).output ≡ not (some_passed t p ts)
  unfolding run
  run-falling r [] cs e o d = o
  run-falling r (now ∷ later) cs e o d =
      let (e', o', d') = low_dropout r now e in
      let done : has_elapsed now r.dropout_time ≡ passed t p now =
        ap (has_elapsed now) d ∙ has_elapsed-passed t now p c cs.0 h in
      elim (Bool-cases (passed t p now)) [
        | inl z ↦ rw z (
            run-idle (timer_update r now (some false)) later (rw (done ∙ z) at e')
              (o' ∙ ap not (done ∙ z)))
        | inr z ↦ rw z (
            run-falling (timer_update r now (some false)) later cs.1 (rw (done ∙ z) at e')
              (o' ∙ ap not (done ∙ z)) (d' ∙ d))
      ]

-- A timer in its pickup state whose pickup time has elapsed at t, and which reads true at t and
-- false at the clock readings after it, turns its output off at the first reading, if any, that
-- comes the dropout delay (below 2 ^ 32 nanoseconds) or more after t, to the microsecond (clock
-- readings are normal times with fewer than 2 ^ 62 nanoseconds since the epoch).
pub timer_off_delay :
    (r : Timer) (t : Time) (q : ℕ) (ts : List Time)
    → r.state ≡ pickup
    → has_elapsed t r.pickup_time ≡ true
    → r.dropout_length ≡ time q 0 0 0 0 0
    → q < 2 ^ 32
    → IsClock t
    → Clocks ts
    → (run (timer_update r t (some true)) false ts).output ≡ not (some_passed t q ts)
timer_off_delay r t q ts e d l h c cs =
    let (e', o', d') = picks_up r t e d in
    run-falling t q c h (timer_update r t (some true)) ts cs e' o' (d' ∙ ap (add t) l)

module _ (t : Time) (p q : ℕ) (h : p < 2 ^ 32) where
  pickup_sub_second : (timer p q).pickup_length.sub_second ≡ p % subsecond_fraction
  unfolding timer
  pickup_sub_second = ap (λ (d : Time). d.sub_second) (delay-eq p h)

  -- From a new timer whose pickup delay (below 2 ^ 32 nanoseconds) is not a whole number of
  -- seconds, an input that is true at a time t and at the clock readings after it turns the output
  -- on at the first reading, if any, that comes the delay or more after t, to the microsecond, and
  -- the output stays on (clock readings are normal times with fewer than 2 ^ 62 nanoseconds since
  -- the epoch).
  pub timer_on_delay :
      (ts : List Time)
      → p % subsecond_fraction ≢ 0
      → IsClock t
      → Clocks ts
      → (run (timer_update (timer p q) t (some true)) true ts).output ≡ some_passed t p ts
  timer_on_delay ts n c cs =
      run-pickup t p c h (timer_update (timer p q) t (some true)) ts cs first.0 first.1 first.2
    where
      first :
          let r = timer_update (timer p q) t (some true) in
          (r.state ≡ pickup) × (r.output ≡ false) × (r.pickup_time ≡ add t (time p 0 0 0 0 0))
      first = rises t p q (λ e. n (sym pickup_sub_second ∙ e))

  -- With a pickup delay (below 2 ^ 32 nanoseconds) of a whole number of seconds a new timer's
  -- output is on at the first update that reads true.
  pub timer_whole_seconds :
      p % subsecond_fraction ≡ 0 → (timer_update (timer p q) t (some true)).output ≡ true
  timer_whole_seconds e = skips t p q (pickup_sub_second ∙ e)
