-- ===== src/Communication/UartTx.antt =====
-- src/LogicElements/src/Communication/UARTTx.cpp and src/LogicElements/include/Communication/UARTTx.hpp: the circular
-- buffer that feeds a UART. The port's functions `UARTTx_isUARTReady` and `UARTTx_isUARTBusy`, which a board
-- replaces, are arguments, and what `UARTTx_writeUART` is given is a result.
pub mod Queue
pub mod Send
pub mod Drain
pub mod Write
pub mod Full
use logic_elements.Base.{
  ℕ, zero, suc, ◌+◌, ◌-◌, ◌%◌, Bool, false, not, ◌&&◌, List, [], ◌∷◌, Option, none, some, ltb, leb,
  ◌==◌, if◌then◌else◌, length, set, take, drop, ◌>>=◌,
}

pub record UartTx : Type 0 where
  pub buffer : List ℕ
  pub buffer_size : ℕ
  pub write : ℕ
  pub read : ℕ
  pub buffer_full : Bool
  pub data_ready_to_send : ℕ

-- The constructor; the buffer's bytes are left as they are found.
abbrev pub uart_tx : ℕ → List ℕ → UartTx
uart_tx size memory = record {
  buffer = memory;
  buffer_size = size;
  write = 0;
  read = 0;
  buffer_full = false;
  data_ready_to_send = 0;
}

-- `memcpy` to a place of the buffer.
unfoldable pub copy_to : List ℕ → ℕ → List ℕ → List ℕ
copy_to buffer i [] = buffer
copy_to buffer i (b ∷ bs) = copy_to (set buffer i b) (suc i) bs

-- `AdvancePointer`
abbrev pub advance_pointer : UartTx → ℕ → ℕ → ℕ
advance_pointer u pointer len = (pointer + len) % u.buffer_size

-- `UpdateDataReadyToSend`
unfoldable pub update_data_ready_to_send : UartTx → UartTx
update_data_ready_to_send u = record u {
  data_ready_to_send = if leb u.read u.write then u.write - u.read else u.buffer_size - u.read;
}

-- `AvailableSpace`
unfoldable pub available_space : UartTx → ℕ
available_space u =
    if u.buffer_full
    then 0
    else if leb u.read u.write
    then u.buffer_size - (u.write - u.read)
    else u.read - u.write

-- `HasSpace`
abbrev pub has_space : UartTx → ℕ → Bool
has_space u len = leb len (available_space u)

-- The `chunk` of one round.
abbrev pub chunk : UartTx → ℕ → ℕ
chunk u remaining =
    if ltb (u.write + remaining) u.buffer_size then remaining else u.buffer_size - u.write

-- One round: copy a chunk, and advance the write pointer.
unfoldable pub write_chunk : UartTx → List ℕ → UartTx
write_chunk u chunk = record u {
  buffer = copy_to u.buffer u.write chunk;
  write = advance_pointer u u.write (length chunk);
}

-- The loop of `Write`, over what remains. `none`: there are more rounds than fuel.
unfoldable pub write_loop : ℕ → UartTx → List ℕ → Option UartTx
write_loop zero u [] = some u
write_loop zero u (b ∷ bs) = none
write_loop (suc fuel) u [] = some u
write_loop (suc fuel) u (b ∷ bs) =
    let n = chunk u (length (b ∷ bs)) in
    write_loop fuel (write_chunk u (take n (b ∷ bs))) (drop n (b ∷ bs))

-- `SendNextData`, with the bytes that go to `UARTTx_writeUART`.
unfoldable pub send_next_data : Bool → Bool → UartTx → UartTx × List ℕ
send_next_data ready busy u =
    if ltb 0 u.data_ready_to_send && ready && not busy
    then (
      update_data_ready_to_send (record u { read = advance_pointer u u.read u.data_ready_to_send }),
      take u.data_ready_to_send (drop u.read u.buffer),
    )
    else (u, [])

-- What `Write` does behind its loop, before it sends.
unfoldable pub finish_write : UartTx → UartTx
finish_write u = update_data_ready_to_send (record u { buffer_full = u.write == u.read })

-- `Write`, with the bytes that it sends; the loop has fuel for a round per byte.
unfoldable pub write : Bool → Bool → UartTx → List ℕ → Option (UartTx × List ℕ)
write ready busy u [] = some (u, [])
write ready busy u (b ∷ bs) = do
  written ← write_loop (length (b ∷ bs)) u (b ∷ bs)
  some (send_next_data ready busy (finish_write written))
