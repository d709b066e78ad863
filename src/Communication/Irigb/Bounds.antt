-- ===== src/Communication/Irigb/Bounds.antt =====
-- The buffers of the decoder: every index that it uses is within them.
use logic_elements.Base.{
  ℕ, ◌<◌, ◌≡◌, refl, sym, ap, ◌∙◌, Bool, true, false, List, [], ◌∷◌, Option, none, some, arith,
  length, length-set, Bool-cases, if_cases, set, inl, inr, if◌then◌else◌, ◌==◌, ◌&&◌,
}
use logic_elements.Communication.Irigb.{
  Irigb, Frame, is_ref, irigb, decode_frames, align_clock, locate_start, out_index, aligned_index,
  finish_signal, write_frame, receive, decode, decode_frame, is_signal, valid_half, last_index,
  frame_at,
}

-- A signal has a start, within the ring.
abbrev pub HasStart : Bool → Option ℕ → Type 0
HasStart has none = has ≡ false
HasStart has (some k) = k < 100

-- What holds between two samples.
pub record IsValid (s : Irigb) : Type 0 where
  pub in_length : length s.frame_in ≡ 100
  pub out_length : length s.frame_out ≡ 200
  pub write_lt : s.frame_write < 100
  pub decode_write_lt : s.frame_decode_write < 100
  pub start : HasStart s.has_signal s.signal_start

locate_start-IsValid :
    (s : Irigb) (frame last : Frame) → IsValid s → IsValid (locate_start s frame last)
unfolding locate_start
locate_start-IsValid s frame last v = elim (Bool-cases (is_ref frame && is_ref last)) [
  | inl e ↦ rw e (record {
    in_length = v.in_length;
    out_length = v.out_length;
    write_lt = v.write_lt;
    decode_write_lt = v.decode_write_lt;
    start = v.write_lt;
  })
  | inr e ↦ rw e v
]

aligned_index_lt :
    (has : Bool) (start : Option ℕ) (w : ℕ)
    → HasStart has start
    → w < 100
    → has ≡ true
    → aligned_index start w < 100
unfolding aligned_index
aligned_index_lt has none w h lt e = absurd (true≢false (sym e ∙ h))
  where
    true≢false : true ≡ false → ⊥
    true≢false p = cc
aligned_index_lt has (some k) w h lt e = ground arith

out_index_lt : (s : Irigb) → IsValid s → s.has_signal ≡ true → out_index s < 200
unfolding out_index
out_index_lt s v e =
    let small = aligned_index_lt s.has_signal s.signal_start s.frame_write v.start v.write_lt e in
    ground arith

-- What `DecodeFrames` leaves alone.
pub record SameBuffers (s t : Irigb) : Type 0 where
  pub same_in : t.frame_in ≡ s.frame_in
  pub same_out : t.frame_out ≡ s.frame_out
  pub same_flip : t.is_flipped ≡ s.is_flipped
  pub same_start : t.signal_start ≡ s.signal_start
  pub same_signal : t.has_signal ≡ s.has_signal
  pub same_write : t.frame_write ≡ s.frame_write

pub decode_frames-SameBuffers :
    (s : Irigb) (frames : List Frame) → SameBuffers s (decode_frames s frames)
unfolding decode_frames align_clock
decode_frames-SameBuffers s frames =
    if_cases (SameBuffers s) (is_signal frames)
      (λ e. record {
        same_in = refl;
        same_out = refl;
        same_flip = refl;
        same_start = refl;
        same_signal = refl;
        same_write = refl;
      })
      (λ e. record {
        same_in = refl;
        same_out = refl;
        same_flip = refl;
        same_start = refl;
        same_signal = refl;
        same_write = refl;
      })

finish_signal-IsValid : (s : Irigb) → IsValid s → IsValid (finish_signal s)
unfolding finish_signal
finish_signal-IsValid s v =
    let same = decode_frames-SameBuffers s (valid_half s) in
    record {
      in_length = ap length same.same_in ∙ v.in_length;
      out_length = ap length same.same_out ∙ v.out_length;
      write_lt = omega (arith, same.same_write);
      decode_write_lt = omega arith;
      start = rw (same.same_signal, same.same_start) v.start;
    }

write_frame-IsValid : (s : Irigb) (frame : Frame) → IsValid s → IsValid (write_frame s frame)
unfolding write_frame
write_frame-IsValid s frame v =
    let written : IsValid (record s { frame_out = set s.frame_out (out_index s) frame }) = record {
      in_length = v.in_length;
      out_length = length-set s.frame_out (out_index s) frame ∙ v.out_length;
      write_lt = v.write_lt;
      decode_write_lt = v.decode_write_lt;
      start = v.start;
    } in
    if_cases IsValid s.has_signal
      (λ e.
        if_cases IsValid (s.frame_decode_write == 99) (λ last. finish_signal-IsValid _ written)
          λ more. record {
            in_length = v.in_length;
            out_length = written.out_length;
            write_lt = v.write_lt;
            decode_write_lt = ground arith;
            start = v.start;
          })
      (λ e. v)

receive-IsValid : (s : Irigb) (frame : Frame) → IsValid s → IsValid (receive s frame)
unfolding receive
receive-IsValid s frame v =
    let stored : IsValid (record s { frame_in = set s.frame_in s.frame_write frame }) = record {
      in_length = length-set s.frame_in s.frame_write frame ∙ v.in_length;
      out_length = v.out_length;
      write_lt = v.write_lt;
      decode_write_lt = v.decode_write_lt;
      start = v.start;
    } in
    let written = write_frame-IsValid _ frame (
      locate_start-IsValid _ frame
        (frame_at (set s.frame_in s.frame_write frame) (last_index s.frame_write)) stored) in
    record {
      in_length = written.in_length;
      out_length = written.out_length;
      write_lt = omega arith;
      decode_write_lt = written.decode_write_lt;
      start = written.start;
    }

pub decode-IsValid : (s : Irigb) (raws : List ℕ) → IsValid s → IsValid (decode s raws)
unfolding decode
decode-IsValid s [] v = v
decode-IsValid s (raw ∷ raws) v =
    decode-IsValid (receive s (decode_frame s raw)) raws (receive-IsValid s (decode_frame s raw) v)

written_lt :
    (s : Irigb) → IsValid s → (if s.has_signal then out_index s else 0) < length s.frame_out
written_lt s v =
    if_cases (λ i. i < length s.frame_out) s.has_signal
      (λ e. omega (arith, out_index_lt s v e, v.out_length)) (λ _. omega (arith, v.out_length))

-- From any memory of 100 and 200 entries and after any raw values, the decoder's write index and
-- the index before it lie inside the input buffer, and after a further search for the start the
-- index that it writes to, if it has found a signal, lies inside the output buffer.
pub decode_inside :
    (memory_in memory_out : List Frame) (bit_0_max bit_1_max ref_max : ℕ) (raws : List ℕ)
    (frame last : Frame)
    → length memory_in ≡ 100
    → length memory_out ≡ 200
    → let s = decode (irigb memory_in memory_out bit_0_max bit_1_max ref_max) raws in
      let t = locate_start s frame last in
      (s.frame_write < length s.frame_in)
      × (last_index s.frame_write < length s.frame_in)
      × ((if t.has_signal then out_index t else 0) < length t.frame_out)
decode_inside memory_in memory_out bit_0_max bit_1_max ref_max raws frame last hi ho =
    let s = decode (irigb memory_in memory_out bit_0_max bit_1_max ref_max) raws in
    let v = decode-IsValid (irigb memory_in memory_out bit_0_max bit_1_max ref_max) raws (record {
      in_length = hi;
      out_length = ho;
      write_lt = omega arith;
      decode_write_lt = omega arith;
      start = refl;
    }) in
    let v' = locate_start-IsValid s frame last v in
    (
      omega (arith, v.write_lt, v.in_length),
      omega (arith, v.write_lt, v.in_length),
      written_lt (locate_start s frame last) v',
    )
