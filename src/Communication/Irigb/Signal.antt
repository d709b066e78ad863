-- ===== src/Communication/Irigb/Signal.antt =====
-- The signal of IRIG-B, as the decoder reads it, and what the decoder's clock shows after it.
use logic_elements.Base.{
  ℕ, zero, suc, ◌+◌, ◌*◌, ◌/◌, ◌%◌, ◌<◌, ◌≡◌, refl, false, List, [], ◌∷◌, ◌++◌, arith,
  if◌then◌else◌, ◌==◌, u8, u16,
}
use logic_elements.Time.{align}
use logic_elements.Communication.Irigb.{
  Irigb, Frame, bit_0, bit_1, frame_ref, is_ref, frame_value, bcd_loop, from_bcd, second_of,
  minute_of, hour_of, day_of, year_of, align_clock, decode_frames, has_second, has_minute, has_hour,
  has_day, has_year,
}

-- The frame of the lowest bit, and those of the lowest bits, lowest first.
abbrev pub bit : ℕ → Frame
bit n = if n % 2 == 0 then bit_0 else bit_1

abbrev pub bits : ℕ → ℕ → List Frame
bits zero n = []
bits (suc k) n = bit n ∷ bits k (n / 2)

-- A time, as a signal carries it.
pub record Stamp : Type 0 where
  pub second : ℕ
  pub minute : ℕ
  pub hour : ℕ
  pub day : ℕ
  pub year : ℕ

-- Each digit fits in its bits.
pub record IsStamp (t : Stamp) : Type 0 where
  pub second_lt : t.second < 80
  pub minute_lt : t.minute < 80
  pub hour_lt : t.hour < 40
  pub day_lt : t.day < 400
  pub year_lt : t.year < 100

-- The parts of a signal, each in front of the rest.
abbrev pub second_part : Stamp → List Frame → List Frame
second_part t rest = bits 4 (t.second % 10) ++ (bit_0 ∷ bits 3 (t.second / 10) ++ frame_ref ∷ rest)

abbrev pub minute_part : Stamp → List Frame → List Frame
minute_part t rest =
    bits 4 (t.minute % 10) ++ (bit_0 ∷ bits 3 (t.minute / 10) ++ bit_0 ∷ frame_ref ∷ rest)

abbrev pub hour_part : Stamp → List Frame → List Frame
hour_part t rest =
    bits 4 (t.hour % 10) ++ (bit_0 ∷ bits 2 (t.hour / 10) ++ bit_0 ∷ bit_0 ∷ frame_ref ∷ rest)

abbrev pub day_end : List Frame → List Frame
day_end rest = bit_0 ∷ bit_0 ∷ bit_0 ∷ bit_0 ∷ bit_0 ∷ bit_0 ∷ bit_0 ∷ frame_ref ∷ rest

abbrev pub day_part : Stamp → List Frame → List Frame
day_part t rest =
    bits 4 (t.day % 10)
    ++ (bit_0 ∷ bits 4 (t.day / 10 % 10) ++ (frame_ref ∷ bits 2 (t.day / 100) ++ day_end rest))

abbrev pub year_part : Stamp → List Frame → List Frame
year_part t rest = bits 4 (t.year % 10) ++ (bit_0 ∷ bits 4 (t.year / 10) ++ frame_ref ∷ rest)

-- The first sixty frames of a signal, in front of the others.
abbrev pub signal : Stamp → List Frame → List Frame
signal t control =
    frame_ref ∷ second_part t (minute_part t (hour_part t (day_part t (year_part t control))))

frame_value-bit : (n : ℕ) → frame_value (bit n) ≡ n % 2
frame_value-bit n = ground arith

pub is_ref-bit : (n : ℕ) → is_ref (bit n) ≡ false
is_ref-bit n = ground arith

-- The digits that `FromBCD` finds.
digit_2 : (a : ℕ) → a < 4 → bcd_loop (bits 2 a) 2 0 1 0 ≡ a
unfolding bcd_loop
digit_2 a h = omega (arith, frame_value-bit a, frame_value-bit (a / 2))

digit_3 : (a : ℕ) → a < 8 → bcd_loop (bits 3 a) 3 0 1 0 ≡ a
unfolding bcd_loop
digit_3 a h = omega (arith, frame_value-bit a, frame_value-bit (a / 2), frame_value-bit (a / 2 / 2))

digit_4 : (a : ℕ) → a < 16 → bcd_loop (bits 4 a) 4 0 1 0 ≡ a
unfolding bcd_loop
digit_4 a h = omega (
  arith,
  frame_value-bit a,
  frame_value-bit (a / 2),
  frame_value-bit (a / 2 / 2),
  frame_value-bit (a / 2 / 2 / 2),
)

-- A number below 160, from what its two digits give.
two_digits : (n x y : ℕ) → n < 160 → x ≡ n % 10 → y ≡ n / 10 → u16 (u16 (x * 1) + u16 (y * 10)) ≡ n
two_digits n x y h p q = omega arith

-- A number below 400, from what its three digits give.
three_digits :
    (n x y z : ℕ)
    → n < 400
    → x ≡ n % 10
    → y ≡ n / 10 % 10
    → z ≡ n / 100
    → u16 (u16 (u16 (x * 1) + u16 (y * 10)) + u16 (z * 100)) ≡ n
three_digits n x y z h p q r = omega arith

module _ (s : Irigb) (t : Stamp) (control : List Frame) (v : IsStamp t) where
  second_of-signal : second_of (record s { frame_out = signal t control }) ≡ t.second
  unfolding from_bcd bcd_loop
  second_of-signal =
      two_digits t.second _ _ (omega (arith, v.second_lt)) (digit_4 (t.second % 10) (omega arith))
        (digit_3 (t.second / 10) (omega (arith, v.second_lt)))

  minute_of-signal : minute_of (record s { frame_out = signal t control }) ≡ t.minute
  unfolding from_bcd bcd_loop
  minute_of-signal =
      two_digits t.minute _ _ (omega (arith, v.minute_lt)) (digit_4 (t.minute % 10) (omega arith))
        (digit_3 (t.minute / 10) (omega (arith, v.minute_lt)))

  hour_of-signal : hour_of (record s { frame_out = signal t control }) ≡ t.hour
  unfolding from_bcd bcd_loop
  hour_of-signal =
      two_digits t.hour _ _ (omega (arith, v.hour_lt)) (digit_4 (t.hour % 10) (omega arith))
        (digit_2 (t.hour / 10) (omega (arith, v.hour_lt)))

  day_of-signal : day_of (record s { frame_out = signal t control }) ≡ t.day
  unfolding from_bcd bcd_loop
  day_of-signal =
      three_digits t.day _ _ _ (omega (arith, v.day_lt)) (digit_4 (t.day % 10) (omega arith))
        (digit_4 (t.day / 10 % 10) (omega arith)) (digit_2 (t.day / 100) (omega (arith, v.day_lt)))

  year_of-signal : year_of (record s { frame_out = signal t control }) ≡ t.year
  unfolding from_bcd bcd_loop
  year_of-signal =
      two_digits t.year _ _ (omega (arith, v.year_lt)) (digit_4 (t.year % 10) (omega arith))
        (digit_4 (t.year / 10) (omega (arith, v.year_lt)))

  -- What `Align` is given.
  pub align_clock-signal :
      let r = align s.clock 0 t.second t.minute t.hour t.day t.year in
      align_clock (record s { frame_out = signal t control })
      ≡ record s { frame_out = signal t control; clock = r.0; drift = r.1 }
  unfolding align_clock
  align_clock-signal =
      let small : (n : ℕ) → n < 80 → u8 n ≡ n = λ n h. omega arith in
      rw
        (
          second_of-signal,
          minute_of-signal,
          hour_of-signal,
          day_of-signal,
          year_of-signal,
          small t.second v.second_lt,
          small t.minute v.minute_lt,
          small t.hour (omega (arith, v.hour_lt)),
        )
        refl

pub decode_frames-signal :
    (s : Irigb) (t u : Stamp) (rest control : List Frame)
    → decode_frames (record s { frame_out = signal t rest }) (signal u control)
      ≡ align_clock (record s { frame_out = signal t rest })
unfolding decode_frames has_second has_minute has_hour has_day has_year
decode_frames-signal s t u rest control = refl
