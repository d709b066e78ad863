-- ===== src/Communication/UartTx/Write.antt =====
-- Writing to the transmission buffer.
use native.Mathlib.Decide.{dec_lt}
use native.Mathlib.Nat.{mod-eq_of_lt, mod-eq-sub-mod}
use mathlib.Core.List.{append-nil}
use logic_elements.Base.{
  ℕ, ◌+◌, ◌-◌, ◌%◌, ◌≤◌, ◌<◌, ◌≡◌, refl, sym, ap, ap₂, ◌∙◌, ◌≢◌, Bool, false, List, [], ◌∷◌, ◌++◌,
  Option, some, ◌==◌, length, arith, ◌>>=◌,
}
use logic_elements.Base.Ring.{window}
use logic_elements.Communication.UartTx.{
  UartTx, update_data_ready_to_send, available_space, send_next_data, finish_write, write,
}
use logic_elements.Communication.UartTx.Queue.{used, pending, IsValid, Written, write_loop-Written}
use logic_elements.Communication.UartTx.Send.{used-lt, used_at, used_of, send_next_data-pending}

space-le : (u : UartTx) → IsValid u → available_space u ≤ u.buffer_size
unfolding available_space
space-le u v = ground (arith, v.room, v.write_in, v.read_in)

-- Behind the loop, for fewer bytes than the space.
finish_write-Written :
    (u w : UartTx) (n : ℕ) (bs : List ℕ)
    → IsValid u
    → 0 < length bs
    → n + length bs < u.buffer_size
    → Written u w n bs
    → IsValid (finish_write w)
      × (pending (finish_write w) ≡ window u.buffer_size 0 u.buffer u.read n ++ bs)
unfolding finish_write update_data_ready_to_send
finish_write-Written u w n bs v some_bytes room r =
    let total = n + length bs in
    let apart : (w.write == w.read) ≡ false =
      other w.write w.read (moved u w total (omega arith) room v.read_in r.at r.same_read) in
    let size : length w.buffer ≡ w.buffer_size = r.size ∙ sym r.same_size in
    let valid : IsValid (finish_write w) = record {
      size = size;
      write_in = omega (arith, r.write_in, r.same_size);
      read_in = omega (arith, v.read_in, r.same_size, r.same_read);
      room = apart;
      ready = refl;
    } in
    let count : used (finish_write w) ≡ total =
      used_of (finish_write w) total apart (omega (arith, v.read_in, r.same_size, r.same_read))
        (omega (arith, r.same_size))
        (r.at ∙ ap₂ (λ (a k : ℕ). (a + total) % k) (sym r.same_read) (sym r.same_size)) in
    (
      valid,
      ap (window w.buffer_size 0 w.buffer w.read) count
          ∙ ap₂ (λ (a k : ℕ). window k 0 w.buffer a total) r.same_read r.same_size
          ∙ r.queued,
    )
  where
    other : (a b : ℕ) → a ≢ b → (a == b) ≡ false
    other a b h = ground arith

    moved :
        (u w : UartTx) (total : ℕ)
        → 0 < total
        → total < u.buffer_size
        → u.read < u.buffer_size
        → w.write ≡ (u.read + total) % u.buffer_size
        → w.read ≡ u.read
        → w.write ≢ w.read
    moved u w total some_bytes room inside at same e =
        elim (dec_lt (u.read + total) u.buffer_size) [
          | yes p ↦ omega (arith, mod-eq_of_lt p)
          | no p ↦ omega (
            arith,
            mod-eq-sub-mod {n = u.read + total} {m = u.buffer_size} (omega arith),
            mod-eq_of_lt {n = u.read + total - u.buffer_size} {m = u.buffer_size} (omega arith),
          )
        ]

-- Writing fewer bytes than there is space for, to a valid buffer that is not full, ends; what it
-- sends and what is then pending are, in order, what was pending and the bytes written; and the
-- buffer stays valid and not full, whatever the state of the UART.
pub write-pending :
    (ready busy : Bool) (u : UartTx) (bs : List ℕ)
    → IsValid u
    → length bs < available_space u
    → (u' : UartTx) × (sent : List ℕ) × (write ready busy u bs ≡ some (u', sent))
      × IsValid u'
      × (sent ++ pending u' ≡ pending u ++ bs)
unfolding write
write-pending ready busy u [] v space = (u, [], refl, v, sym (append-nil (pending u)))
write-pending ready busy u (b ∷ bs) v space =
    let n = used u in
    let room : n + length (b ∷ bs) < u.buffer_size = omega (arith, used-lt u v, space-le u v) in
    let (w, returns, r) =
      write_loop-Written (length (b ∷ bs)) u n (b ∷ bs) (omega arith) v.size v.write_in
        (used_at u v) (omega (arith, room)) in
    let (valid, queue) = finish_write-Written u w n (b ∷ bs) v (omega arith) room r in
    let (valid', split) = send_next_data-pending ready busy (finish_write w) valid in
    (
      (send_next_data ready busy (finish_write w)).0,
      (send_next_data ready busy (finish_write w)).1,
      ap
          (λ (o : Option UartTx).
            o >>= λ written. some (send_next_data ready busy (finish_write written)))
          returns,
      valid',
      split ∙ queue,
    )
