-- ===== src/Communication/UartTx/Drain.antt =====
-- Emptying the transmission buffer.
use native.Mathlib.Decide.{dec_lt}
use native.Mathlib.Nat.{mod_self}
use mathlib.Core.List.{append-nil}
use logic_elements.Base.{
  ℕ, ◌+◌, ◌%◌, ◌≤◌, ◌<◌, ◌≡◌, refl, sym, ap, subst, ◌∙◌, true, false, List, [], ◌++◌, ltb, leb, ◌⊎◌,
  length-append, length, take, drop, length-take, length-drop, arith, Bool-cases, inl, inr,
}
use logic_elements.Base.Ring.{window, length-window}
use logic_elements.Communication.UartTx.{
  UartTx, advance_pointer, update_data_ready_to_send, available_space, send_next_data,
}
use logic_elements.Communication.UartTx.Queue.{used, pending, IsValid}
use logic_elements.Communication.UartTx.Send.{used-lt, ready-le, send_next_data-pending}

-- What is ready is either everything, or all up to the end of the buffer.
ready_cases :
    (u : UartTx)
    → IsValid u
    → (u.data_ready_to_send ≡ used u)
      ⊎ ((u.read + u.data_ready_to_send ≡ u.buffer_size)
          × (used u ≡ u.data_ready_to_send + u.write))
unfolding available_space
ready_cases u v = elim (Bool-cases (leb u.read u.write)) [
  | inl e ↦ inl (rw (v.ready, v.room, e) (omega (arith, le e, v.write_in, v.read_in)))
  | inr e ↦
      inr (rw (v.ready, v.room, e) (omega (arith, gt e, v.read_in), omega (arith, gt e, v.read_in)))
]
  where
    le : leb u.read u.write ≡ true → u.read ≤ u.write
    le e = ground arith

    gt : leb u.read u.write ≡ false → u.write < u.read
    gt e = ground arith

idle_sends :
    (u : UartTx)
    → 0 < u.data_ready_to_send
    → send_next_data true false u ≡ (
      update_data_ready_to_send (record u { read = advance_pointer u u.read u.data_ready_to_send }),
      take u.data_ready_to_send (drop u.read u.buffer),
    )
unfolding send_next_data
idle_sends u h = rw (pos u.data_ready_to_send h, send_next_data) refl
  where
    pos : (n : ℕ) → 0 < n → ltb 0 n ≡ true
    pos n h = ground arith

length-pending : (u : UartTx) → length (pending u) ≡ used u
length-pending u = length-window u.buffer_size 0 u.buffer u.read (used u)

none_ready : (u : UartTx) → IsValid u → u.data_ready_to_send ≡ 0 → used u ≡ 0
none_ready u v z = elim (ready_cases u v) [
  | inl e ↦ omega arith
  | inr (e, f) ↦ omega (arith, v.read_in)
]

idle_keeps : (u : UartTx) → u.data_ready_to_send ≡ 0 → send_next_data true false u ≡ (u, [])
unfolding send_next_data
idle_keeps u z = rw (not_pos u.data_ready_to_send z, send_next_data) refl
  where
    not_pos : (n : ℕ) → n ≡ 0 → ltb 0 n ≡ false
    not_pos n z = ground arith

-- Sending leaves what it has not sent.
used_rest :
    (u : UartTx)
    → IsValid u
    → length (send_next_data true false u).1 + used (send_next_data true false u).0 ≡ used u
used_rest u v =
    ap (λ (k : ℕ). length (send_next_data true false u).1 + k)
      (sym (length-pending (send_next_data true false u).0))
    ∙ sym (length-append (send_next_data true false u).1 (pending (send_next_data true false u).0))
    ∙ ap length (send_next_data-pending true false u v).1
    ∙ length-pending u

-- Where everything is ready, a ready and idle UART gets everything.
all_ready :
    (u : UartTx)
    → IsValid u
    → u.data_ready_to_send ≡ used u
    → used (send_next_data true false u).0 ≡ 0
all_ready u v all = elim (dec_lt 0 u.data_ready_to_send) [
  | no p ↦
      ap (λ (r : UartTx × List ℕ). used r.0) (idle_keeps u (omega arith))
      ∙ none_ready u v (omega arith)
  | yes p ↦
      let (le, fits) = ready-le u v in
      let sent : length (take u.data_ready_to_send (drop u.read u.buffer)) ≡ u.data_ready_to_send =
        omega (
          arith,
          length-take u.data_ready_to_send (drop u.read u.buffer),
          length-drop u.read u.buffer,
          v.size,
        ) in
      let bytes : length (send_next_data true false u).1 ≡ u.data_ready_to_send =
        ap (λ (r : UartTx × List ℕ). length r.1) (idle_sends u p) ∙ sent in
      omega (arith, used_rest u v)
]

-- From the start of the buffer everything is ready.
start_ready : (u : UartTx) → IsValid u → u.read ≡ 0 → u.data_ready_to_send ≡ used u
start_ready u v z = elim (ready_cases u v) [
  | inl e ↦ e
  | inr (e, f) ↦ omega (arith, (ready-le u v).0, used-lt u v)
]

-- After one call with the UART ready and idle, what is left is ready as a whole.
rest_ready :
    (u : UartTx)
    → IsValid u
    → let rest = (send_next_data true false u).0 in rest.data_ready_to_send ≡ used rest
unfolding update_data_ready_to_send
rest_ready u v = elim (dec_lt 0 u.data_ready_to_send) [
  | no p ↦
      subst (λ (r : UartTx). r.data_ready_to_send ≡ used r)
        (sym (ap (λ (r : UartTx × List ℕ). r.0) (idle_keeps u (omega arith))))
        (omega (arith, none_ready u v (omega arith)))
  | yes p ↦ elim (ready_cases u v) [
    | inl e ↦
        let (valid, split) = send_next_data-pending true false u v in
        let empty = all_ready u v e in
        omega (arith, (ready-le (send_next_data true false u).0 valid).0)
    | inr (e, f) ↦
        let (valid, split) = send_next_data-pending true false u v in
        start_ready (send_next_data true false u).0 valid
          (ap (λ (r : UartTx × List ℕ). r.0.read) (idle_sends u p) ∙ read_end u e)
  ]
]
  where
    read_end :
        (u : UartTx)
        → u.read + u.data_ready_to_send ≡ u.buffer_size
        → (u.read + u.data_ready_to_send) % u.buffer_size ≡ 0
    read_end u e = ap (λ (k : ℕ). k % u.buffer_size) e ∙ mod_self u.buffer_size

window_none : (u : UartTx) → window u.buffer_size 0 u.buffer u.read 0 ≡ []
unfolding window
window_none u = refl

-- From a valid buffer that is not full, two calls of SendNextData while the UART is ready and not
-- busy send all pending bytes in order, and leave no byte used.
pub send_next_data-all :
    (u : UartTx)
    → IsValid u
    → let first = send_next_data true false u in
      let second = send_next_data true false first.0 in
      (first.1 ++ second.1 ≡ pending u) × (used second.0 ≡ 0)
send_next_data-all u v =
    let (v1, split1) = send_next_data-pending true false u v in
    let u1 = (send_next_data true false u).0 in
    let (v2, split2) = send_next_data-pending true false u1 v1 in
    let empty = all_ready u1 v1 (rest_ready u v) in
    let u2 = (send_next_data true false u1).0 in
    let gone : pending u2 ≡ [] =
      ap (window u2.buffer_size 0 u2.buffer u2.read) empty ∙ window_none u2 in
    (
      ap (λ (l : List ℕ). (send_next_data true false u).1 ++ l)
            (sym (append-nil (send_next_data true false u1).1)
              ∙ ap (λ (l : List ℕ). (send_next_data true false u1).1 ++ l) (sym gone)
              ∙ split2)
          ∙ split1,
      empty,
    )
