-- ===== src/Communication/Irigb.antt =====
-- src/LogicElements/src/Communication/le_IRIGB.cpp and
-- src/LogicElements/include/Communication/le_IRIGB.hpp: the decoder of IRIG-B, a time signal of a
-- hundred pulses per second, whose widths are the raw values. The printing of the time is left out.
pub mod Bounds
pub mod Capture
pub mod Signal
pub mod Decode
use logic_elements.Base.{
  ℕ, zero, suc, ◌+◌, ◌-◌, ◌*◌, ◌%◌, Bool, true, false, ◌&&◌, List, [], ◌∷◌, Option, none, some, ltb,
  leb, ◌==◌, if◌then◌else◌, get_or, set, drop, u8, u16,
}
use logic_elements.Base.Int.{ℤ, pos}
use logic_elements.Time.{Time, epoch, align}

-- `IRIGBFrame`: BIT_0, BIT_1, FRAME_REF and FRAME_INVALID.
pub data Frame : Type 0 where
  bit_0 bit_1 frame_ref frame_invalid : Frame

-- SIGNAL_LEN
abbrev pub signal_len : ℕ
signal_len = 100

-- The fields of `IRIGB`, and `clock`, its part as a `Time`. In `signal_start`, `none` is -1.
pub record Irigb : Type 0 where
  pub clock : Time
  pub frame_in : List Frame
  pub frame_out : List Frame
  pub is_flipped : Bool
  pub signal_start : Option ℕ
  pub has_signal : Bool
  pub frame_write : ℕ
  pub frame_decode_write : ℕ
  pub bit_0_max : ℕ
  pub bit_1_max : ℕ
  pub ref_max : ℕ
  pub drift : ℤ

-- The constructor, from the memory that it finds in the two buffers, of 100 and 200 entries, and
-- the three widths that `SetFrameCountTolerances` computes by floats.
abbrev pub irigb : List Frame → List Frame → ℕ → ℕ → ℕ → Irigb
irigb memory_in memory_out bit_0_max bit_1_max ref_max = record {
  clock = epoch;
  frame_in = memory_in;
  frame_out = memory_out;
  is_flipped = false;
  signal_start = none;
  has_signal = false;
  frame_write = 0;
  frame_decode_write = 0;
  bit_0_max = bit_0_max;
  bit_1_max = bit_1_max;
  ref_max = ref_max;
  drift = pos 0;
}

-- `DecodeFrame`
unfoldable pub decode_frame : Irigb → ℕ → Frame
decode_frame s raw =
    if ltb raw s.bit_0_max
    then bit_0
    else if ltb raw s.bit_1_max
    then bit_1
    else if ltb raw s.ref_max
    then frame_ref
    else frame_invalid

abbrev pub is_ref : Frame → Bool
is_ref frame_ref = true
is_ref _ = false

abbrev pub is_bit_0 : Frame → Bool
is_bit_0 bit_0 = true
is_bit_0 _ = false

-- `(uint8_t)` of a frame.
abbrev pub frame_value : Frame → ℕ
frame_value bit_0 = 0
frame_value bit_1 = 1
frame_value frame_ref = 10
frame_value frame_invalid = 255

-- `frames[i]`
abbrev pub frame_at : List Frame → ℕ → Frame
frame_at frames i = get_or frames i frame_invalid

abbrev pub ref_at : List Frame → ℕ → Bool
ref_at frames i = is_ref (frame_at frames i)

abbrev pub zero_at : List Frame → ℕ → Bool
zero_at frames i = is_bit_0 (frame_at frames i)

-- The loop of `FromBCD`, with the rounds left, the index and the weight of its bit.
unfoldable pub bcd_loop : List Frame → ℕ → ℕ → ℕ → ℕ → ℕ
bcd_loop frames zero i weight tmp = tmp
bcd_loop frames (suc left) i weight tmp =
    bcd_loop frames left (i + 1) (weight * 2) (u16 (tmp + frame_value (frame_at frames i) * weight))

-- `FromBCD`: it reads `_irigFrameOut`, whatever buffer it is given.
unfoldable pub from_bcd : Irigb → ℕ → ℕ → ℕ → ℕ
from_bcd s start stop multiplier =
    u16 (bcd_loop s.frame_out (stop + 1 - start) start 1 0 * multiplier)

-- The conditions of `DecodeFrames`, each before a field is read.
unfoldable pub has_second : List Frame → Bool
has_second frames = ref_at frames 0 && zero_at frames 5 && ref_at frames 9

unfoldable pub has_minute : List Frame → Bool
has_minute frames = zero_at frames 14 && zero_at frames 18 && ref_at frames 19

unfoldable pub has_hour : List Frame → Bool
has_hour frames = zero_at frames 24 && zero_at frames 27 && zero_at frames 28 && ref_at frames 29

unfoldable pub has_day : List Frame → Bool
has_day frames =
    zero_at frames 34
    && ref_at frames 39
    && zero_at frames 42
    && zero_at frames 43
    && zero_at frames 44
    && zero_at frames 45
    && zero_at frames 46
    && zero_at frames 47
    && zero_at frames 48
    && ref_at frames 49

unfoldable pub has_year : List Frame → Bool
has_year frames = zero_at frames 54 && ref_at frames 59

abbrev pub is_signal : List Frame → Bool
is_signal frames =
    has_second frames && has_minute frames && has_hour frames && has_day frames && has_year frames

-- `InvalidateIRIG`
abbrev pub invalidate_irig : Irigb → Irigb
invalidate_irig s = record s { frame_decode_write = 0 }

-- The fields of a signal.
abbrev pub second_of : Irigb → ℕ
second_of s = u16 (from_bcd s 1 4 1 + from_bcd s 6 8 10)

abbrev pub minute_of : Irigb → ℕ
minute_of s = u16 (from_bcd s 10 13 1 + from_bcd s 15 17 10)

abbrev pub hour_of : Irigb → ℕ
hour_of s = u16 (from_bcd s 20 23 1 + from_bcd s 25 26 10)

abbrev pub day_of : Irigb → ℕ
day_of s = u16 (u16 (from_bcd s 30 33 1 + from_bcd s 35 38 10) + from_bcd s 40 41 100)

abbrev pub year_of : Irigb → ℕ
year_of s = u16 (from_bcd s 50 53 1 + from_bcd s 55 58 10)

-- The call of `Align`, with its drift kept.
unfoldable pub align_clock : Irigb → Irigb
align_clock s =
    let aligned =
      align s.clock 0 (u8 (second_of s)) (u8 (minute_of s)) (u8 (hour_of s)) (day_of s)
        (year_of s) in
    record s { clock = aligned.0; drift = aligned.1 }

-- `DecodeFrames`, without its second argument, which the code does not use.
unfoldable pub decode_frames : Irigb → List Frame → Irigb
decode_frames s frames = if is_signal frames then align_clock s else invalidate_irig s

-- The index of the frame before the write pointer.
abbrev pub last_index : ℕ → ℕ
last_index w = (w + signal_len - 1) % signal_len

-- Two references in a row start a signal.
unfoldable pub locate_start : Irigb → Frame → Frame → Irigb
locate_start s frame last =
    if is_ref frame && is_ref last
    then record s { signal_start = some s.frame_write; has_signal = true }
    else s

-- The place of a frame in its signal.
unfoldable pub aligned_index : Option ℕ → ℕ → ℕ
aligned_index none w = w + 1
aligned_index (some start) w = if leb start w then w - start else signal_len - start + w

unfoldable pub out_index : Irigb → ℕ
out_index s =
    let aligned = aligned_index s.signal_start s.frame_write in
    if s.is_flipped then aligned + signal_len else aligned

-- `&_irigFrameOut[SIGNAL_LEN]` or `&_irigFrameOut[0]`.
abbrev pub valid_half : Irigb → List Frame
valid_half s = if s.is_flipped then drop signal_len s.frame_out else s.frame_out

-- All hundred frames are there.
unfoldable pub finish_signal : Irigb → Irigb
finish_signal s =
    let decoded = decode_frames s (valid_half s) in
    record decoded {
      is_flipped = if decoded.is_flipped then false else true;
      frame_decode_write = 0;
    }

-- The part of the loop under `if (this->bValidSignal)`.
unfoldable pub write_frame : Irigb → Frame → Irigb
write_frame s frame =
    let written = record s { frame_out = set s.frame_out (out_index s) frame } in
    if s.has_signal
    then (if s.frame_decode_write == signal_len - 1
        then finish_signal written
        else record written { frame_decode_write = u8 (s.frame_decode_write + 1) })
    else s

-- One round of the loop of `Decode`, after `DecodeFrame`.
unfoldable pub receive : Irigb → Frame → Irigb
receive s frame =
    let stored = record s { frame_in = set s.frame_in s.frame_write frame } in
    let last = frame_at stored.frame_in (last_index s.frame_write) in
    let written = write_frame (locate_start stored frame last) frame in
    record written { frame_write = (written.frame_write + 1) % signal_len }

-- `Decode`
unfoldable pub decode : Irigb → List ℕ → Irigb
decode s [] = s
decode s (raw ∷ raws) = decode (receive s (decode_frame s raw)) raws
