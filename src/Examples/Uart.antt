-- ===== src/Examples/Uart.antt =====
-- A transmission buffer of four bytes, two of them pending across its end.
use logic_elements.Base.{ℕ, ◌≡◌, refl, Bool, true, false, List, [], ◌∷◌, ◌++◌, some, arith}
use logic_elements.Communication.UartTx.{UartTx, available_space, send_next_data, write}
use logic_elements.Communication.UartTx.Queue.{IsValid, pending, used}
use logic_elements.Communication.UartTx.Drain.{send_next_data-all}
use logic_elements.Communication.UartTx.Write.{write-pending}
use logic_elements.Communication.UartTx.Full.{write_full_stuck}

abbrev uart : UartTx
uart = record {
  buffer = 20 ∷ 11 ∷ 12 ∷ 13 ∷ [];
  buffer_size = 4;
  write = 1;
  read = 3;
  buffer_full = false;
  data_ready_to_send = 1;
}

uart-IsValid : IsValid uart
uart-IsValid = record {
  size = refl;
  write_in = omega arith;
  read_in = omega arith;
  room = refl;
  ready = refl;
}

write-pending_example :
    (u' : UartTx) × (sent : List ℕ) × (write true true uart (7 ∷ []) ≡ some (u', sent))
    × IsValid u'
    × (sent ++ pending u' ≡ pending uart ++ 7 ∷ [])
unfolding available_space
write-pending_example = write-pending true true uart (7 ∷ []) uart-IsValid (omega arith)

send_next_data-all_example :
    let first = send_next_data true false uart in
    let second = send_next_data true false first.0 in
    (first.1 ++ second.1 ≡ pending uart) × (used second.0 ≡ 0)
send_next_data-all_example = send_next_data-all uart uart-IsValid

write_full_stuck_example :
    (u' : UartTx) × (write true false uart (7 ∷ 8 ∷ []) ≡ some (u', []))
    × (u'.buffer_full ≡ true)
    × ((ready' busy' : Bool) → send_next_data ready' busy' u' ≡ (u', []))
unfolding available_space
write_full_stuck_example = write_full_stuck true false uart (7 ∷ 8 ∷ []) uart-IsValid refl
