-- ===== src/Elements/Timer/Steps.antt =====
-- One update of a timer from each state, and its delays on the clock.
use logic_elements.Base.{
  ℕ, ◌+◌, ◌/◌, ◌%◌, ◌^◌, ◌<◌, ◌≡◌, refl, sym, ap, ◌∙◌, ◌≢◌, Bool, true, false, not, some, leb,
  if◌then◌else◌, u16, arith,
}
use logic_elements.Time.{Time, subsecond_fraction, time, add, has_elapsed}
use logic_elements.Time.Epoch.{nanoseconds}
use logic_elements.Time.Calendar.{days_in_year}
use logic_elements.Time.Carry.{IsNormal, days_in_year_bounds, update-IsNormal, nanoseconds-update}
use logic_elements.Time.Sum.{nanoseconds-add}
use logic_elements.Time.Order.{microseconds, has_elapsed-eq, nanoseconds_inj, days_before-ge}
use logic_elements.Elements.Timer.{Timer, idle, pickup, dropout, timer, timer_update}

-- A clock reading that the code's arithmetic carries: normal, and before the year 2116.
pub record IsClock (t : Time) : Type 0 where
  pub normal : IsNormal t
  pub early : nanoseconds t < 2 ^ 62

-- A delay of `p` nanoseconds, as the constructor keeps it.
abbrev pub delay : ℕ → Time
delay p = record {
  year = 0;
  day = 0;
  hour = 0;
  minute = 0;
  second = p / subsecond_fraction;
  sub_second = p % subsecond_fraction;
}

pub zero_year : 0 < days_in_year (u16 (0 + 1970))
zero_year = omega (arith, days_in_year_bounds (u16 (0 + 1970)))

pub delay-eq : (p : ℕ) → p < 2 ^ 32 → time p 0 0 0 0 0 ≡ delay p
unfolding time
delay-eq p h = sym (
    nanoseconds_inj (delay p) _ (omega (arith, zero_year)) (update-IsNormal _ 0) (omega arith)
      (omega arith ∙ sym (nanoseconds-update _ 0 (omega arith) (omega arith))))

pub add-delay :
    (t : Time) (p : ℕ)
    → IsClock t
    → p < 2 ^ 32
    → nanoseconds (add t (time p 0 0 0 0 0)) ≡ nanoseconds t + p
add-delay t p c h = rw (delay-eq p h) (
    nanoseconds-add t (delay p) c.normal
      (record {
        no_years = refl;
        day_in = omega arith;
        hour_in = omega arith;
        minute_in = omega arith;
        second_in = omega arith;
        sub_second_in = omega arith;
      })
      (omega (arith, days_before-ge t.year, c.early))
    ∙ omega arith)

-- When `now` is at or past `t` plus a delay, to the microsecond.
abbrev pub passed : Time → ℕ → Time → Bool
passed t p now = leb ((nanoseconds t + p) / 1000) (microseconds now)

pub has_elapsed-passed :
    (t now : Time) (p : ℕ)
    → IsClock t
    → IsClock now
    → p < 2 ^ 32
    → has_elapsed now (add t (time p 0 0 0 0 0)) ≡ passed t p now
has_elapsed-passed t now p c c' h =
    let sum = add-delay t p c h in
    has_elapsed-eq now (add t (time p 0 0 0 0 0)) (omega (arith, c'.early))
      (omega (arith, c.early, sum))
    ∙ ap (λ (n : ℕ). leb (n / 1000) (microseconds now)) sum

-- One update from each state, with what the runs below need of it.
pub high_dropout :
    (r : Timer) (now : Time)
    → r.state ≡ dropout
    → let r' = timer_update r now (some true) in (r'.state ≡ dropout) × (r'.output ≡ true)
unfolding timer_update
high_dropout r now e = ground arith

pub high_pickup :
    (r : Timer) (now : Time)
    → r.state ≡ pickup
    → let r' = timer_update r now (some true) in
      let done = has_elapsed now r.pickup_time in
      (r'.state ≡ (if done then dropout else pickup))
      × (r'.output ≡ done)
      × (r'.pickup_time ≡ r.pickup_time)
unfolding timer_update
high_pickup r now e = ground arith

pub low_pickup :
    (r : Timer) (now : Time)
    → r.state ≡ pickup
    → let r' = timer_update r now (some false) in (r'.state ≡ idle) × (r'.output ≡ false)
unfolding timer_update
low_pickup r now e = ground arith

pub low_idle :
    (r : Timer) (now : Time)
    → r.state ≡ idle
    → let r' = timer_update r now (some false) in (r'.state ≡ idle) × (r'.output ≡ false)
unfolding timer_update
low_idle r now e = ground arith

pub low_dropout :
    (r : Timer) (now : Time)
    → r.state ≡ dropout
    → let r' = timer_update r now (some false) in
      let done = has_elapsed now r.dropout_time in
      (r'.state ≡ (if done then idle else dropout))
      × (r'.output ≡ not done)
      × (r'.dropout_time ≡ r.dropout_time)
unfolding timer_update
low_dropout r now e = ground arith

pub rises :
    (t : Time) (p q : ℕ)
    → (timer p q).pickup_length.sub_second ≢ 0
    → let r = timer_update (timer p q) t (some true) in
      (r.state ≡ pickup) × (r.output ≡ false) × (r.pickup_time ≡ add t (time p 0 0 0 0 0))
unfolding timer timer_update
rises t p q n = ground arith

pub skips :
    (t : Time) (p q : ℕ)
    → (timer p q).pickup_length.sub_second ≡ 0
    → (timer_update (timer p q) t (some true)).output ≡ true
unfolding timer timer_update
skips t p q e = ground arith

pub picks_up :
    (r : Timer) (t : Time)
    → r.state ≡ pickup
    → has_elapsed t r.pickup_time ≡ true
    → let r' = timer_update r t (some true) in
      (r'.state ≡ dropout) × (r'.output ≡ true) × (r'.dropout_time ≡ add t r.dropout_length)
unfolding timer_update
picks_up r t e d = ground arith
