-- ===== src/Examples/Irigb.antt =====
-- A signal of IRIG-B, as pulses, and a decoder that receives it.
use logic_elements.Base.{
  ℕ, zero, suc, ◌+◌, ◌%◌, ◌<◌, ◌≡◌, refl, List, [], ◌∷◌, ◌++◌, map, replicate, length, drop, arith,
  if◌then◌else◌,
}
use logic_elements.Communication.Irigb.{
  Irigb, Frame, bit_0, bit_1, frame_ref, frame_invalid, irigb, decode, decode_frame, locate_start,
  last_index, out_index,
}
use logic_elements.Communication.Irigb.Bounds.{decode_inside}
use logic_elements.Communication.Irigb.Capture.{Spaced, ring_after}
use logic_elements.Communication.Irigb.Signal.{Stamp, IsStamp, signal}
use logic_elements.Communication.Irigb.Decode.{
  at_first, at_second, aligned_to, decode-first, decode-second,
}

-- Day 101 of the year 24, at 12:34:56, and one second later.
abbrev first_time : Stamp
first_time = record { second = 56; minute = 34; hour = 12; day = 101; year = 24 }

abbrev second_time : Stamp
second_time = record { second = 57; minute = 34; hour = 12; day = 101; year = 24 }

abbrev control_bits : List Frame
control_bits = replicate 39 bit_0 ++ frame_ref ∷ []

-- A width for each frame.
abbrev raw : Frame → ℕ
raw bit_0 = 5
raw bit_1 = 15
raw frame_ref = 25
raw frame_invalid = 99

abbrev memory : List Frame
memory = replicate 100 frame_invalid

abbrev decoder : Irigb
decoder = irigb memory (memory ++ memory) 10 20 30

abbrev first_raws : List ℕ
first_raws = map raw (signal first_time control_bits)

abbrev second_raws : List ℕ
second_raws = map raw (signal second_time control_bits)

zeros-Spaced : (n : ℕ) (last : Frame) → Spaced last (replicate (suc n) bit_0 ++ frame_ref ∷ [])
zeros-Spaced zero last = (refl, (refl, tt))
zeros-Spaced (suc n) last = (refl, zeros-Spaced n bit_0)

first_time-IsStamp : IsStamp first_time
first_time-IsStamp = record {
  second_lt = omega arith;
  minute_lt = omega arith;
  hour_lt = omega arith;
  day_lt = omega arith;
  year_lt = omega arith;
}

first_frames : map (decode_frame decoder) first_raws ≡ signal first_time control_bits
unfolding decode_frame
first_frames = refl

second_frames : map (decode_frame decoder) second_raws ≡ signal second_time control_bits
unfolding decode_frame
second_frames = refl

control_bits-Spaced : Spaced frame_ref control_bits
control_bits-Spaced = zeros-Spaced 38 frame_ref

decode-first_example :
    decode (at_first decoder 5 memory (memory ++ memory)) first_raws
    ≡ at_second
        (aligned_to decoder first_time)
        5
        (ring_after memory ((5 + 0) % 100) (signal first_time control_bits))
        (signal first_time (control_bits ++ drop 100 (memory ++ memory)))
decode-first_example =
    decode-first decoder 5 memory (memory ++ memory) first_time control_bits first_raws
      (omega arith) refl refl refl control_bits-Spaced first_time-IsStamp first_frames

decode-second_example :
    decode (at_second decoder 5 memory (signal first_time (control_bits ++ memory))) second_raws
    ≡ at_first
        (aligned_to decoder first_time)
        5
        (ring_after memory ((5 + 0) % 100) (signal second_time control_bits))
        (signal first_time (control_bits ++ signal second_time control_bits))
decode-second_example =
    decode-second decoder 5 memory memory first_time second_time control_bits control_bits
      second_raws (omega arith) refl refl refl refl control_bits-Spaced first_time-IsStamp
      second_frames

decode_inside_example :
    let s = decode decoder (25 ∷ 25 ∷ 5 ∷ []) in
    let t = locate_start s frame_ref frame_ref in
    (s.frame_write < length s.frame_in)
    × (last_index s.frame_write < length s.frame_in)
    × ((if t.has_signal then out_index t else 0) < length t.frame_out)
decode_inside_example =
    decode_inside memory (memory ++ memory) 10 20 30 (25 ∷ 25 ∷ 5 ∷ []) frame_ref frame_ref refl
      refl
