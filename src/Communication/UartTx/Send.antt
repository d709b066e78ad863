-- ===== src/Communication/UartTx/Send.antt =====
-- Sending from the transmission buffer, and writing to it, against the queue of bytes.
use native.Mathlib.Decide.{dec_lt}
use native.Mathlib.Nat.{mod-lt, mod-eq_of_lt, mod-eq-sub-mod, mod-add-mod}
use logic_elements.Base.{
  ℕ, zero, suc, ◌+◌, ◌-◌, ◌%◌, ◌≤◌, ◌<◌, ◌≡◌, refl, sym, ap, ap₂, ◌∙◌, Bool, true, false, not, ◌&&◌,
  List, [], ◌∷◌, ◌++◌, ltb, leb, length, get_or, take, drop, arith, Bool-cases, inl, inr,
}
use logic_elements.Base.Ring.{window, window-add, window_cong}
use logic_elements.Communication.UartTx.{
  UartTx, advance_pointer, update_data_ready_to_send, available_space, send_next_data,
}
use logic_elements.Communication.UartTx.Queue.{used, pending, IsValid}

drop-get_or :
    (buf : List ℕ) (i : ℕ) → i < length buf → drop i buf ≡ get_or buf i 0 ∷ drop (suc i) buf
drop-get_or [] i h = absurd (omega arith)
drop-get_or (x ∷ xs) zero h = refl
drop-get_or (x ∷ xs) (suc i) h = drop-get_or xs i (omega arith)

-- A part of the buffer that does not go round is a window.
take-drop-window :
    (cap : ℕ) (buf : List ℕ) (from n : ℕ)
    → length buf ≡ cap
    → from + n ≤ cap
    → take n (drop from buf) ≡ window cap 0 buf from n
unfolding window
take-drop-window cap buf from zero size h = refl
take-drop-window cap buf from (suc n) size h =
    ap (take (suc n)) (drop-get_or buf from (omega arith))
    ∙ ap₂ (λ (i : ℕ) (l : List ℕ). get_or buf i 0 ∷ l) (sym (mod-eq_of_lt (omega arith)))
        (take-drop-window cap buf (suc from) n size (omega arith))

-- What the pointers say of a valid buffer.
pub used-lt : (u : UartTx) → IsValid u → used u < u.buffer_size
unfolding available_space
used-lt u v = ground (arith, v.room, v.write_in, v.read_in)

pub used_at : (u : UartTx) → IsValid u → (u.read + used u) % u.buffer_size ≡ u.write
unfolding available_space
used_at u v = elim (Bool-cases (leb u.read u.write)) [
  | inl e ↦
      rw (v.room, e)
        (ap (λ (k : ℕ). k % u.buffer_size) {y = u.write} (omega (arith, le e))
          ∙ mod-eq_of_lt v.write_in)
  | inr e ↦
      rw (v.room, e)
        (ap (λ (k : ℕ). k % u.buffer_size) {y = u.write + u.buffer_size}
            (omega (arith, gt e, v.write_in, v.read_in))
          ∙ mod-eq-sub-mod {n = u.write + u.buffer_size} {m = u.buffer_size} (omega arith)
          ∙ ap (λ (k : ℕ). k % u.buffer_size) {y = u.write} (omega arith)
          ∙ mod-eq_of_lt v.write_in)
]
  where
    le : leb u.read u.write ≡ true → u.read ≤ u.write
    le e = ground arith

    gt : leb u.read u.write ≡ false → u.write < u.read
    gt e = ground arith

-- The pointers determine the number of bytes: where `n` bytes lie between them, `n` are used.
pub used_of :
    (u : UartTx) (n : ℕ)
    → u.buffer_full ≡ false
    → u.read < u.buffer_size
    → n < u.buffer_size
    → u.write ≡ (u.read + n) % u.buffer_size
    → used u ≡ n
unfolding available_space
used_of u n room inside h at = elim (dec_lt (u.read + n) u.buffer_size) [
  | yes p ↦ let e : u.write ≡ u.read + n = at ∙ mod-eq_of_lt p in ground (arith, room, e)
  | no p ↦
      let e : u.write ≡ u.read + n - u.buffer_size =
        at
        ∙ mod-eq-sub-mod {n = u.read + n} {m = u.buffer_size} (omega arith)
        ∙ mod-eq_of_lt (omega arith) in
      ground (arith, room, e)
]

pub ready-le :
    (u : UartTx)
    → IsValid u
    → (u.data_ready_to_send ≤ used u) × (u.read + u.data_ready_to_send ≤ u.buffer_size)
unfolding available_space
ready-le u v = rw v.ready (ground (arith, v.room, v.write_in, v.read_in))

-- SendNextData keeps a valid buffer valid, and what it sends followed by what is pending afterwards
-- is what was pending, whatever the state of the UART.
pub send_next_data-pending :
    (ready busy : Bool) (u : UartTx)
    → IsValid u
    → IsValid (send_next_data ready busy u).0
      × ((send_next_data ready busy u).1 ++ pending (send_next_data ready busy u).0 ≡ pending u)
unfolding send_next_data update_data_ready_to_send
send_next_data-pending ready busy u v =
    elim (Bool-cases (ltb 0 u.data_ready_to_send && ready && not busy)) [
      | inr e ↦ rw e (v, refl)
      | inl e ↦
          let d = u.data_ready_to_send in
          let (le, fits) = ready-le u v in
          let n = used u - d in
          let sent = record u { read = advance_pointer u u.read d } in
          let u' = update_data_ready_to_send sent in
          let read_in : sent.read < u.buffer_size =
            mod-lt (u.read + d) (omega (arith, v.read_in)) in
          let at : u.write ≡ (sent.read + n) % u.buffer_size =
            sym (used_at u v)
            ∙ ap (λ (k : ℕ). k % u.buffer_size) (omega arith)
            ∙ sym (mod-add-mod (u.read + d) u.buffer_size n) in
          let count : used u' ≡ n = used_of u' n v.room read_in (omega (arith, used-lt u v)) at in
          let valid : IsValid u' = record {
            size = v.size;
            write_in = v.write_in;
            read_in = read_in;
            room = v.room;
            ready = refl;
          } in
          rw e (
            valid,
            ap₂ (λ (l : List ℕ) (k : ℕ). l ++ window u.buffer_size 0 u.buffer sent.read k)
                  (take-drop-window u.buffer_size u.buffer u.read d v.size fits) count
                ∙ ap (λ (l : List ℕ). window u.buffer_size 0 u.buffer u.read d ++ l)
                    (window_cong u.buffer_size 0 u.buffer sent.read (u.read + d) n
                      (mod-eq_of_lt read_in))
                ∙ sym (window-add u.buffer_size 0 u.buffer u.read d n)
                ∙ ap (window u.buffer_size 0 u.buffer u.read) (omega arith),
          )
    ]
