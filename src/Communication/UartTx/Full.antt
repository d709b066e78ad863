-- ===== src/Communication/UartTx/Full.antt =====
-- The transmission buffer filled to its last byte.
use native.Mathlib.Nat.{mod-eq_of_lt, mod-eq-sub-mod}
use logic_elements.Base.{
  ℕ, ◌+◌, ◌-◌, ◌%◌, ◌≡◌, refl, sym, ap, ◌∙◌, Bool, true, false, List, [], ◌∷◌, Option, some, ltb,
  leb, ◌==◌, if◌then◌else◌, length, arith, ◌>>=◌,
}
use logic_elements.Communication.UartTx.{
  UartTx, update_data_ready_to_send, available_space, send_next_data, finish_write, write,
}
use logic_elements.Communication.UartTx.Queue.{used, IsValid, write_loop-Written}
use logic_elements.Communication.UartTx.Send.{used-lt, used_at}

none_to_send :
    (ready busy : Bool) (u : UartTx)
    → u.data_ready_to_send ≡ 0
    → send_next_data ready busy u ≡ (u, [])
unfolding send_next_data
none_to_send ready busy u z = rw (not_pos u.data_ready_to_send z, send_next_data) refl
  where
    not_pos : (n : ℕ) → n ≡ 0 → ltb 0 n ≡ false
    not_pos n z = ground arith

space_used : (u : UartTx) → IsValid u → used u + available_space u ≡ u.buffer_size
unfolding available_space
space_used u v = ground (arith, v.room, v.write_in, v.read_in)

-- With the pointers together there is nothing to send, and the buffer counts as full.
finish_write_together :
    (w : UartTx)
    → w.write ≡ w.read
    → ((finish_write w).data_ready_to_send ≡ 0) × ((finish_write w).buffer_full ≡ true)
unfolding finish_write update_data_ready_to_send
finish_write_together w e = (none_left w.write w.read w.buffer_size e, same w.write w.read e)
  where
    none_left : (a b size : ℕ) → a ≡ b → (if leb b a then a - b else size - b) ≡ 0
    none_left a b size e = ground arith

    same : (a b : ℕ) → a ≡ b → (a == b) ≡ true
    same a b e = ground arith

-- Writing to a valid buffer that is not full exactly as many bytes as it has space for sends
-- nothing, whatever the state of the UART, and leaves the buffer full with nothing ready, so that
-- later calls of SendNextData neither send nor change anything.
pub write_full_stuck :
    (ready busy : Bool) (u : UartTx) (bs : List ℕ)
    → IsValid u
    → length bs ≡ available_space u
    → (u' : UartTx) × (write ready busy u bs ≡ some (u', []))
      × (u'.buffer_full ≡ true)
      × ((ready' busy' : Bool) → send_next_data ready' busy' u' ≡ (u', []))
unfolding write
write_full_stuck ready busy u [] v space = absurd (omega (arith, used-lt u v, space_used u v))
write_full_stuck ready busy u (b ∷ bs) v space =
    let n = used u in
    let whole : n + length (b ∷ bs) ≡ u.buffer_size = omega (arith, space_used u v) in
    let (w, returns, r) =
      write_loop-Written (length (b ∷ bs)) u n (b ∷ bs) (omega arith) v.size v.write_in
        (used_at u v) (omega (arith, whole)) in
    let together : w.write ≡ w.read =
      r.at
      ∙ ap (λ (k : ℕ). k % u.buffer_size) {y = u.read + u.buffer_size} (omega (arith, whole))
      ∙ mod-eq-sub-mod {n = u.read + u.buffer_size} {m = u.buffer_size} (omega arith)
      ∙ ap (λ (k : ℕ). k % u.buffer_size) {y = u.read} (omega arith)
      ∙ mod-eq_of_lt v.read_in
      ∙ sym r.same_read in
    let (nothing, full) = finish_write_together w together in
    (
      finish_write w,
      ap
            (λ (o : Option UartTx).
              o >>= λ written. some (send_next_data ready busy (finish_write written)))
            returns
          ∙ ap some (none_to_send ready busy (finish_write w) nothing),
      full,
      λ r' b'. none_to_send r' b' (finish_write w) nothing,
    )
