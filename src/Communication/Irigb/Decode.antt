-- ===== src/Communication/Irigb/Decode.antt =====
-- What the decoder's clock shows after the signals of two seconds.
use logic_elements.Base.{
  ℕ, zero, suc, ◌+◌, ◌/◌, ◌%◌, ◌<◌, ◌≡◌, refl, ap, ◌∙◌, Bool, true, false, List, [], ◌∷◌, ◌++◌, map,
  arith, length, drop, drop_all, if◌then◌else◌, overwrite, overwrite_front, overwrite-append,
  drop-append,
}
use mathlib.Core.List.{append-nil}
use logic_elements.Time.{align}
use logic_elements.Communication.Irigb.{
  Irigb, Frame, bit_0, frame_ref, is_ref, decode, decode_frame, decode_frames, finish_signal,
}
use logic_elements.Communication.Irigb.Capture.{
  locked, Spaced, ring_after, receive_all, receive_signal, decode-receive_all, after_signal,
}
use logic_elements.Communication.Irigb.Signal.{
  Stamp, IsStamp, bit, bits, signal, second_part, minute_part, hour_part, day_part, day_end,
  year_part, is_ref-bit, align_clock-signal, decode_frames-signal,
}

-- Whatever frame stands before, if it is no reference.
abbrev SpacedAfter : List Frame → Type 0
SpacedAfter xs = (l : Frame) → is_ref l ≡ false → Spaced l xs

bits-Spaced :
    (k n : ℕ) (last : Frame) (xs : List Frame) → SpacedAfter xs → Spaced last (bits (suc k) n ++ xs)
bits-Spaced zero n last xs f = (rw (is_ref-bit n) refl, f (bit n) (is_ref-bit n))
bits-Spaced (suc k) n last xs f = (rw (is_ref-bit n) refl, bits-Spaced k (n / 2) (bit n) xs f)

module _ (t : Stamp) (l : Frame) (xs : List Frame) (c : Spaced frame_ref xs) where
  second_part-Spaced : Spaced l (second_part t xs)
  second_part-Spaced =
      bits-Spaced 3 (t.second % 10) l (bit_0 ∷ bits 3 (t.second / 10) ++ frame_ref ∷ xs)
        λ _ _. (refl, bits-Spaced 2 (t.second / 10) bit_0 (frame_ref ∷ xs) λ _ h. (h, c))

  minute_part-Spaced : Spaced l (minute_part t xs)
  minute_part-Spaced =
      bits-Spaced 3 (t.minute % 10) l (bit_0 ∷ bits 3 (t.minute / 10) ++ bit_0 ∷ frame_ref ∷ xs)
        λ _ _. (
          refl,
          bits-Spaced 2 (t.minute / 10) bit_0 (bit_0 ∷ frame_ref ∷ xs) λ _ _. (refl, (refl, c)),
        )

  hour_part-Spaced : Spaced l (hour_part t xs)
  hour_part-Spaced =
      bits-Spaced 3 (t.hour % 10) l (bit_0 ∷ bits 2 (t.hour / 10) ++ bit_0 ∷ bit_0 ∷ frame_ref ∷ xs)
        λ _ _. (
          refl,
          bits-Spaced 1 (t.hour / 10) bit_0 (bit_0 ∷ bit_0 ∷ frame_ref ∷ xs)
              λ _ _. (refl, (refl, (refl, c))),
        )

  day_end-SpacedAfter : SpacedAfter (day_end xs)
  day_end-SpacedAfter _ _ = (refl, (refl, (refl, (refl, (refl, (refl, (refl, (refl, c))))))))

  day_part-Spaced : Spaced l (day_part t xs)
  day_part-Spaced =
      let hundreds : List Frame = bits 2 (t.day / 100) ++ day_end xs in
      bits-Spaced 3 (t.day % 10) l (bit_0 ∷ bits 4 (t.day / 10 % 10) ++ frame_ref ∷ hundreds) λ _ _.
        (
          refl,
          bits-Spaced 3 (t.day / 10 % 10) bit_0 (frame_ref ∷ hundreds)
              λ _ h. (h, bits-Spaced 1 (t.day / 100) frame_ref (day_end xs) day_end-SpacedAfter),
        )

  year_part-Spaced : Spaced l (year_part t xs)
  year_part-Spaced =
      bits-Spaced 3 (t.year % 10) l (bit_0 ∷ bits 4 (t.year / 10) ++ frame_ref ∷ xs)
        λ _ _. (refl, bits-Spaced 3 (t.year / 10) bit_0 (frame_ref ∷ xs) λ _ h. (h, c))

-- The frames of a signal after its first one.
abbrev pub signal_rest : Stamp → List Frame → List Frame
signal_rest t control =
    second_part t (minute_part t (hour_part t (day_part t (year_part t control))))

-- No two references of a signal stand side by side.
signal_rest-Spaced :
    (t : Stamp) (control : List Frame)
    → Spaced frame_ref control
    → Spaced frame_ref (signal_rest t control)
signal_rest-Spaced t control c =
    let years = year_part t control in
    let days = day_part t years in
    let hours = hour_part t days in
    second_part-Spaced t frame_ref (minute_part t hours) (
      minute_part-Spaced t frame_ref hours (
        hour_part-Spaced t frame_ref days
          (day_part-Spaced t frame_ref years (year_part-Spaced t frame_ref control c))))

-- A decoder that waits for the first frame of a signal, and will write it to the first half of its
-- output buffer, or to the second half.
abbrev pub at_first : Irigb → ℕ → List Frame → List Frame → Irigb
at_first s k ins out = locked (record s { is_flipped = false }) k ins out 0

abbrev pub at_second : Irigb → ℕ → List Frame → List Frame → Irigb
at_second s k ins out = locked (record s { is_flipped = true }) k ins out 0

-- The decoder with its clock aligned to a time.
abbrev pub aligned_to : Irigb → Stamp → Irigb
aligned_to s t =
    let r = align s.clock 0 t.second t.minute t.hour t.day t.year in
    record s { clock = r.0; drift = r.1 }

module _ (s : Irigb) (k : ℕ) (ins : List Frame) (t u : Stamp) (rest control : List Frame) where
  -- Both halves are checked, but the fields are those of the first half.
  decoded : (flip : Bool) → Irigb
  decoded flip =
      decode_frames (locked (record s { is_flipped = flip }) k ins (signal t rest) 99)
        (signal u control)

  decoded-aligned :
      (flip : Bool)
      → IsStamp t
      → decoded flip
        ≡ locked (record (aligned_to s t) { is_flipped = flip }) k ins (signal t rest) 99
  unfolding decoded
  decoded-aligned flip v =
      decode_frames-signal (locked (record s { is_flipped = flip }) k ins [] 99) t u rest control
      ∙ align_clock-signal (locked (record s { is_flipped = flip }) k ins [] 99) t rest v

  restart :
      (flip : Bool)
      → k < 100
      → record (locked (record s { is_flipped = flip }) k ins (signal t rest) 99) {
        frame_decode_write = 0;
        frame_write = k;
      }
        ≡ locked (record s { is_flipped = flip }) k ins (signal t rest) 0
  restart flip h =
      ap
        (λ (w : ℕ). record (locked (record s { is_flipped = flip }) k ins (signal t rest) 0) {
          frame_write = w;
        })
        (omega arith)

finish_first :
    (s : Irigb) (k : ℕ) (ins : List Frame) (t : Stamp) (rest : List Frame)
    → IsStamp t
    → k < 100
    → after_signal (record s { is_flipped = false }) k ins (signal t rest)
      ≡ at_second (aligned_to s t) k ins (signal t rest)
unfolding finish_signal decoded
finish_first s k ins t rest v h =
    ap
      (λ (d : Irigb). record d {
        is_flipped = if d.is_flipped then false else true;
        frame_decode_write = 0;
        frame_write = k;
      })
      (decoded-aligned s k ins t t rest rest false v)
    ∙ restart (aligned_to s t) k ins t t rest rest true h

-- A decoder that has found the start of the signals and writes to the first half of its output
-- buffer, and receives a hundred raw values whose frames are the signal of a time (with any frames
-- for the forty control bits, no two references side by side), ends with its clock aligned to that
-- time, the signal in the first half, and writing to the second.
pub decode-first :
    (s : Irigb) (k : ℕ) (ins out : List Frame) (t : Stamp) (control : List Frame) (raws : List ℕ)
    → k < 100
    → length ins ≡ 100
    → length out ≡ 200
    → length control ≡ 40
    → Spaced frame_ref control
    → IsStamp t
    → map (decode_frame s) raws ≡ signal t control
    → decode (at_first s k ins out) raws
      ≡ at_second
          (aligned_to s t)
          k
          (ring_after ins ((k + 0) % 100) (signal t control))
          (signal t (control ++ drop 100 out))
unfolding decode_frame
decode-first s k ins out t control raws h hi ho hc spaced v frames =
    let start = at_first s k ins out in
    let ins' = ring_after ins ((k + 0) % 100) (signal t control) in
    let long : length (signal t control) ≡ 100 = omega arith in
    let front : overwrite out 0 (signal t control) ≡ signal t (control ++ drop 100 out) =
      overwrite_front out (signal t control) (omega arith)
      ∙ ap (λ (n : ℕ). signal t control ++ drop n out) long in
    decode-receive_all start raws
    ∙ ap (receive_all start) frames
    ∙ receive_signal (record s { is_flipped = false }) k ins out frame_ref (signal_rest t control) h
        (omega arith) hi (signal_rest-Spaced t control spaced)
    ∙ ap (after_signal (record s { is_flipped = false }) k ins') front
    ∙ finish_first s k ins' t (control ++ drop 100 out) v h

finish_second :
    (s : Irigb) (k : ℕ) (ins : List Frame) (t u : Stamp) (control control' : List Frame)
    → IsStamp t
    → k < 100
    → length control ≡ 40
    → after_signal (record s { is_flipped = true }) k ins (signal t (control ++ signal u control'))
      ≡ at_first (aligned_to s t) k ins (signal t (control ++ signal u control'))
unfolding finish_signal decoded
finish_second s k ins t u control control' v h hc =
    let rest = control ++ signal u control' in
    let half : drop 100 (signal t rest) ≡ signal u control' =
      drop-append (signal t control) (signal u control') 100 (omega arith) in
    ap
      (λ (d : Irigb). record d {
        is_flipped = if d.is_flipped then false else true;
        frame_decode_write = 0;
        frame_write = k;
      })
      (ap (decode_frames (locked (record s { is_flipped = true }) k ins (signal t rest) 99)) half
        ∙ decoded-aligned s k ins t u rest control' true v)
    ∙ restart (aligned_to s t) k ins t t rest rest false h

-- A decoder that writes to the second half of its output buffer, whose first half holds the signal
-- of an earlier time, and receives the raw values of a signal, ends with its clock aligned to the
-- earlier time and not to that of the signal.
pub decode-second :
    (s : Irigb) (k : ℕ) (ins back : List Frame) (t u : Stamp) (control control' : List Frame)
    (raws : List ℕ)
    → k < 100
    → length ins ≡ 100
    → length back ≡ 100
    → length control ≡ 40
    → length control' ≡ 40
    → Spaced frame_ref control'
    → IsStamp t
    → map (decode_frame s) raws ≡ signal u control'
    → decode (at_second s k ins (signal t (control ++ back))) raws
      ≡ at_first
          (aligned_to s t)
          k
          (ring_after ins ((k + 0) % 100) (signal u control'))
          (signal t (control ++ signal u control'))
unfolding decode_frame
decode-second s k ins back t u control control' raws h hi hb hc hc' spaced v frames =
    let start = at_second s k ins (signal t (control ++ back)) in
    let ins' = ring_after ins ((k + 0) % 100) (signal u control') in
    let long : length (signal u control') ≡ 100 = omega arith in
    let both : overwrite (signal t (control ++ back)) 100 (signal u control')
        ≡ signal t (control ++ signal u control') =
      overwrite-append (signal t control) back (signal u control') 100 (omega arith)
      ∙ ap (λ (l : List Frame). signal t control ++ l)
          (overwrite_front back (signal u control') (omega arith)
            ∙ ap (λ (l : List Frame). signal u control' ++ l)
                (drop_all (length (signal u control')) back (omega arith))
            ∙ append-nil (signal u control')) in
    decode-receive_all start raws
    ∙ ap (receive_all start) frames
    ∙ receive_signal (record s { is_flipped = true }) k ins (signal t (control ++ back)) frame_ref
        (signal_rest u control') h (omega arith) hi (signal_rest-Spaced u control' spaced)
    ∙ ap (after_signal (record s { is_flipped = true }) k ins') both
    ∙ finish_second s k ins' t u control control' v h hc
