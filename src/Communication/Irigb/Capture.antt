-- ===== src/Communication/Irigb/Capture.antt =====
-- A signal that is received whole stands in its half of the output buffer when it is decoded.
use logic_elements.Base.{
  ℕ, suc, ◌+◌, ◌%◌, ◌<◌, ◌≡◌, refl, sym, ap, ap₂, ◌∙◌, subst, true, false, List, [], ◌∷◌, map, some,
  arith, length, length-set, set, if◌then◌else◌, ◌==◌, ◌&&◌, overwrite, get_or-set_self,
  get_or-set_ne, ◌⊎◌, inl, inr, u8, if_cases,
}
use logic_elements.Communication.Irigb.{
  Irigb, Frame, is_ref, signal_len, locate_start, out_index, aligned_index, frame_invalid,
  finish_signal, write_frame, receive, decode, decode_frame, last_index, frame_at, valid_half,
  decode_frames, align_clock, is_signal,
}
use mathlib.Core.Path.{fun_ext}
use logic_elements.Communication.Irigb.Bounds.{decode_frames-SameBuffers}

-- A decoder that has found the start `k` of the signals, and has received `n` frames of one.
abbrev pub locked : Irigb → ℕ → List Frame → List Frame → ℕ → Irigb
locked s k ins out n = record s {
  frame_in = ins;
  frame_out = out;
  has_signal = true;
  signal_start = some k;
  frame_write = (k + n) % signal_len;
  frame_decode_write = n;
}

-- The start of the half that is being written.
abbrev pub half_start : Irigb → ℕ
half_start s = if s.is_flipped then signal_len else 0

-- No reference follows another one.
abbrev pub Spaced : Frame → List Frame → Type 0
Spaced last [] = Unit {0}
Spaced last (x ∷ xs) = ((is_ref x && is_ref last) ≡ false) × Spaced x xs

-- The input ring after the frames.
abbrev pub ring_after : List Frame → ℕ → List Frame → List Frame
ring_after ins w [] = ins
ring_after ins w (x ∷ xs) = ring_after (set ins w x) ((w + 1) % signal_len) xs

-- `Decode`, after `DecodeFrame`.
abbrev pub receive_all : Irigb → List Frame → Irigb
receive_all s [] = s
receive_all s (x ∷ xs) = receive_all (receive s x) xs

-- Where the last two frames are not both references, or the write pointer is at the start already.
locate_start-locked :
    (s : Irigb) (k n : ℕ) (ins out : List Frame) (x last : Frame)
    → k < 100
    → ((is_ref x && is_ref last) ≡ false) ⊎ (n ≡ 0)
    → locate_start (locked s k ins out n) x last ≡ locked s k ins out n
unfolding locate_start
locate_start-locked s k n ins out x last h (inl e) = rw e
locate_start-locked s k n ins out x last h (inr e) =
    let start : (k + n) % 100 ≡ k = omega arith in
    if_cases (λ t. t ≡ locked s k ins out n) (is_ref x && is_ref last)
      (λ _. ap (λ (w : ℕ). record (locked s k ins out n) { signal_start = some w }) start)
      (λ _. refl)

out_index-locked :
    (s : Irigb) (k n : ℕ) (ins out : List Frame)
    → k < 100
    → n < 100
    → out_index (locked s k ins out n) ≡ half_start s + n
unfolding out_index aligned_index
out_index-locked s k n ins out h h' = ground arith

write_frame-locked :
    (s : Irigb) (k n : ℕ) (ins out : List Frame) (x : Frame)
    → k < 100
    → n < 99
    → write_frame (locked s k ins out n) x
      ≡ record (locked s k ins (set out (half_start s + n) x) n) { frame_decode_write = suc n }
unfolding write_frame
write_frame-locked s k n ins out x h h' =
    let more : (n == 99) ≡ false = ground arith in
    let next : u8 (n + 1) ≡ suc n = omega arith in
    rw (more, next, out_index-locked s k n ins out h (omega arith)) refl

-- The frame before the next one.
abbrev pub last_frame : ℕ → ℕ → List Frame → Frame
last_frame k n ins = frame_at ins (last_index ((k + n) % signal_len))

last_frame_kept :
    (k n : ℕ) (ins : List Frame) (x : Frame)
    → frame_at (set ins ((k + n) % 100) x) (last_index ((k + n) % 100)) ≡ last_frame k n ins
last_frame_kept k n ins x = get_or-set_ne ins x frame_invalid (omega arith)

last_frame_next :
    (k n : ℕ) (ins : List Frame) (x : Frame)
    → length ins ≡ 100
    → last_frame k (suc n) (set ins ((k + n) % 100) x) ≡ x
last_frame_next k n ins x h =
    ap (frame_at (set ins ((k + n) % 100) x)) (omega arith)
    ∙ get_or-set_self ins ((k + n) % 100) x frame_invalid (omega arith)

-- The state in which `write_frame` runs.
stored-locked :
    (s : Irigb) (k n : ℕ) (ins out : List Frame) (x : Frame)
    → k < 100
    → ((is_ref x && is_ref (last_frame k n ins)) ≡ false) ⊎ (n ≡ 0)
    → let ins' = set ins ((k + n) % 100) x in
      locate_start (locked s k ins' out n) x (frame_at ins' (last_index ((k + n) % 100)))
      ≡ locked s k ins' out n
stored-locked s k n ins out x h spaced =
    let ins' = set ins ((k + n) % 100) x in
    locate_start-locked s k n ins' out x (frame_at ins' (last_index ((k + n) % 100))) h
      (rw (last_frame_kept k n ins x) spaced)

receive-locked :
    (s : Irigb) (k n : ℕ) (ins out : List Frame) (x : Frame)
    → k < 100
    → n < 99
    → ((is_ref x && is_ref (last_frame k n ins)) ≡ false) ⊎ (n ≡ 0)
    → receive (locked s k ins out n) x
      ≡ locked s k (set ins ((k + n) % 100) x) (set out (half_start s + n) x) (suc n)
unfolding receive
receive-locked s k n ins out x h h' spaced =
    let next : ((k + n) % 100 + 1) % 100 ≡ (k + suc n) % 100 = omega arith in
    rw
      (
        stored-locked s k n ins out x h spaced,
        write_frame-locked s k n (set ins ((k + n) % 100) x) out x h h',
        next,
      )
      refl

-- The state after a whole signal.
abbrev pub after_signal : Irigb → ℕ → List Frame → List Frame → Irigb
after_signal s k ins out = record (finish_signal (locked s k ins out 99)) { frame_write = k }

write_frame-last :
    (s : Irigb) (k : ℕ) (ins out : List Frame) (x : Frame)
    → k < 100
    → write_frame (locked s k ins out 99) x
      ≡ finish_signal (locked s k ins (set out (half_start s + 99) x) 99)
unfolding write_frame
write_frame-last s k ins out x h = rw (out_index-locked s k 99 ins out h (omega arith)) refl

finish_signal_write : (s : Irigb) → (finish_signal s).frame_write ≡ s.frame_write
unfolding finish_signal
finish_signal_write s = (decode_frames-SameBuffers s (valid_half s)).same_write

receive_last :
    (s : Irigb) (k : ℕ) (ins out : List Frame) (x : Frame)
    → k < 100
    → (is_ref x && is_ref (last_frame k 99 ins)) ≡ false
    → receive (locked s k ins out 99) x
      ≡ after_signal s k (set ins ((k + 99) % 100) x) (set out (half_start s + 99) x)
unfolding receive
receive_last s k ins out x h spaced =
    let done =
      finish_signal (locked s k (set ins ((k + 99) % 100) x) (set out (half_start s + 99) x) 99) in
    let back : (done.frame_write + 1) % 100 ≡ k = omega (
      arith,
      finish_signal_write
          (locked s k (set ins ((k + 99) % 100) x) (set out (half_start s + 99) x) 99),
    ) in
    rw
      (
        stored-locked s k 99 ins out x h (inl spaced),
        write_frame-last s k (set ins ((k + 99) % 100) x) out x h,
      )
      (ap (λ (w : ℕ). record done { frame_write = w }) back)

-- The rest of a signal, after its first frame.
receive_rest :
    (s : Irigb) (k n : ℕ) (ins out : List Frame) (x : Frame) (xs : List Frame)
    → k < 100
    → n + length (x ∷ xs) ≡ 100
    → length ins ≡ 100
    → Spaced (last_frame k n ins) (x ∷ xs)
    → receive_all (locked s k ins out n) (x ∷ xs)
      ≡ after_signal s k
          (ring_after ins ((k + n) % 100) (x ∷ xs))
          (overwrite out (half_start s + n) (x ∷ xs))
receive_rest s k n ins out x [] h len size spaced =
    let end : n ≡ 99 = omega arith in
    subst
      (λ (m : ℕ).
        receive (locked s k ins out m) x
        ≡ after_signal s k (set ins ((k + m) % 100) x) (set out (half_start s + m) x))
      (sym end)
      (receive_last s k ins out x h
        (subst (λ (m : ℕ). (is_ref x && is_ref (last_frame k m ins)) ≡ false) end spaced.0))
receive_rest s k n ins out x (y ∷ xs) h len size spaced =
    let ins' = set ins ((k + n) % 100) x in
    let out' = set out (half_start s + n) x in
    let place : ((k + n) % 100 + 1) % 100 ≡ (k + suc n) % 100 = omega arith in
    rw (receive-locked s k n ins out x h (omega arith) (inl spaced.0)) (
      receive_rest s k (suc n) ins' out' y xs h (omega arith)
        (length-set ins ((k + n) % 100) x ∙ size) (rw (last_frame_next k n ins x size) spaced.1)
      ∙ ap₂ (λ (w i : ℕ). after_signal s k (ring_after ins' w (y ∷ xs)) (overwrite out' i (y ∷ xs)))
          (sym place) (omega arith))

-- A whole signal that starts at the start.
pub receive_signal :
    (s : Irigb) (k : ℕ) (ins out : List Frame) (x : Frame) (xs : List Frame)
    → k < 100
    → length xs ≡ 99
    → length ins ≡ 100
    → Spaced x xs
    → receive_all (locked s k ins out 0) (x ∷ xs)
      ≡ after_signal s k
          (ring_after ins ((k + 0) % 100) (x ∷ xs))
          (overwrite out (half_start s) (x ∷ xs))
receive_signal s k ins out x [] h len size spaced = absurd (omega arith)
receive_signal s k ins out x (y ∷ xs) h len size spaced =
    let ins' = set ins ((k + 0) % 100) x in
    let place : (k + 1) % 100 ≡ ((k + 0) % 100 + 1) % 100 = omega arith in
    rw (receive-locked s k 0 ins out x h (omega arith) (inr refl)) (
      receive_rest s k 1 ins' (set out (half_start s + 0) x) y xs h (omega arith)
        (length-set ins ((k + 0) % 100) x ∙ size) (rw (last_frame_next k 0 ins x size) spaced)
      ∙ ap₂ (λ (w : ℕ) (o : List Frame). after_signal s k (ring_after ins' w (y ∷ xs)) o) place
          (ap₂ (λ (i j : ℕ). overwrite (set out i x) j (y ∷ xs)) (omega arith) (omega arith)))

record SameWidths (s t : Irigb) : Type 0 where
  same_0 : t.bit_0_max ≡ s.bit_0_max
  same_1 : t.bit_1_max ≡ s.bit_1_max
  same_ref : t.ref_max ≡ s.ref_max

decode_frames-SameWidths : (s : Irigb) (frames : List Frame) → SameWidths s (decode_frames s frames)
unfolding decode_frames align_clock
decode_frames-SameWidths s frames =
    if_cases (SameWidths s) (is_signal frames)
      (λ e. record { same_0 = refl; same_1 = refl; same_ref = refl })
      (λ e. record { same_0 = refl; same_1 = refl; same_ref = refl })

locate_start-SameWidths : (s : Irigb) (x last : Frame) → SameWidths s (locate_start s x last)
unfolding locate_start
locate_start-SameWidths s x last =
    if_cases (SameWidths s) (is_ref x && is_ref last)
      (λ e. record { same_0 = refl; same_1 = refl; same_ref = refl })
      (λ e. record { same_0 = refl; same_1 = refl; same_ref = refl })

write_frame-SameWidths : (s : Irigb) (x : Frame) → SameWidths s (write_frame s x)
unfolding write_frame finish_signal
write_frame-SameWidths s x =
    let written = record s { frame_out = set s.frame_out (out_index s) x } in
    let decoded = decode_frames-SameWidths written (valid_half written) in
    if_cases (SameWidths s) s.has_signal
      (λ e.
        if_cases (SameWidths s) (s.frame_decode_write == 99)
          (λ l. record {
            same_0 = decoded.same_0;
            same_1 = decoded.same_1;
            same_ref = decoded.same_ref;
          })
          (λ l. record { same_0 = refl; same_1 = refl; same_ref = refl }))
      (λ e. record { same_0 = refl; same_1 = refl; same_ref = refl })

decode_frame-receive :
    (s : Irigb) (x : Frame) (raw : ℕ) → decode_frame (receive s x) raw ≡ decode_frame s raw
unfolding receive decode_frame
decode_frame-receive s x raw =
    let stored = record s { frame_in = set s.frame_in s.frame_write x } in
    let last = frame_at stored.frame_in (last_index s.frame_write) in
    let a = locate_start-SameWidths stored x last in
    let b = write_frame-SameWidths (locate_start stored x last) x in
    rw (b.same_0 ∙ a.same_0, b.same_1 ∙ a.same_1, b.same_ref ∙ a.same_ref) refl

-- `Decode` receives the frames of the raw values.
pub decode-receive_all :
    (s : Irigb) (raws : List ℕ) → decode s raws ≡ receive_all s (map (decode_frame s) raws)
unfolding decode
decode-receive_all s [] = refl
decode-receive_all s (raw ∷ raws) =
    let t = receive s (decode_frame s raw) in
    decode-receive_all t raws
    ∙ ap (λ (f : ℕ → Frame). receive_all t (map f raws))
        (fun_ext (λ r. decode_frame-receive s (decode_frame s raw) r))
