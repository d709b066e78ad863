-- ===== src/Communication/Connection.antt =====
-- src/LogicElements/src/Communication/le_AbstractConnectionHandler.cpp and
-- src/LogicElements/include/Communication/le_AbstractConnectionHandler.hpp: the line editor of a
-- connection. What the virtual `read` gives is an argument, and what `write` is given is a result:
-- a list of texts, in their order. The handlers for TCP and serial ports only call their libraries.
pub mod Keys
pub mod Plain
pub mod Edit
pub mod Echo
use logic_elements.Base.{
  ℕ, suc, ◌+◌, ◌-◌, ◌%◌, ◌^◌, Bool, true, false, ◌||◌, List, [], ◌∷◌, ◌++◌, Option, none, some, ltb,
  ◌==◌, if◌then◌else◌, get_elem?, length, ◌>>=◌,
}
use logic_elements.Base.Int.{ℤ, pos, negsuc, to_i32}

-- The fields of `AbstractConnectionHandler`. The queue of lines has its front first.
pub record Connection : Type 0 where
  pub line_buffer : List (List ℕ)
  pub char_buffer : List ℕ
  pub command_in_process : Bool
  pub command_history : List (List ℕ)
  pub history_index : ℤ
  pub escape_key_requested : Bool

-- The constructor.
abbrev pub connection : Connection
connection = record {
  line_buffer = [];
  char_buffer = [];
  command_in_process = false;
  command_history = [];
  history_index = negsuc 0;
  escape_key_requested = false;
}

-- '\033', '\b' and 127, and '\n' or '\r'.
abbrev pub is_escape : ℕ → Bool
is_escape c = c == 27

abbrev pub is_backspace : ℕ → Bool
is_backspace c = c == 8 || c == 127

abbrev pub is_newline : ℕ → Bool
is_newline c = c == 10 || c == 13

-- "\r>> " and "\033[K".
abbrev pub prompt : List ℕ
prompt = 13 ∷ 62 ∷ 62 ∷ 32 ∷ []

abbrev pub clear_to_end : List ℕ
clear_to_end = 27 ∷ 91 ∷ 75 ∷ []

-- An `int` where it is compared with a `size_t`, or used as an index.
abbrev pub to_size : ℤ → ℕ
to_size (pos n) = n
to_size (negsuc n) = 2 ^ 64 - suc n

abbrev pub next_index : ℤ → ℤ
next_index (pos n) = pos (n + 1)
next_index (negsuc n) = if n == 0 then pos 0 else negsuc (n - 1)

-- `commandHistory.size() - 1`, and the cast of `commandHistory.size()` to `int`.
abbrev pub size_minus_one : Connection → ℕ
size_minus_one s = (length s.command_history + 2 ^ 64 - 1) % 2 ^ 64

abbrev pub history_end : Connection → ℤ
history_end s = to_i32 (pos (length s.command_history))

-- The entry of the history at the new index, with what is written; `none` is a read outside the
-- vector.
unfoldable pub show_entry : Connection → ℤ → Option (Connection × List (List ℕ))
show_entry s index = do
  entry ← get_elem? s.command_history (to_size index)
  some (
    record s { history_index = index; char_buffer = entry },
    (prompt ++ (entry ++ clear_to_end)) ∷ [],
  )

-- The branches of 'A' and 'B', at the history index.
unfoldable pub key_up : Connection → ℤ → Option (Connection × List (List ℕ))
key_up s (pos n) = if ltb 0 n then show_entry s (pos (n - 1)) else some (s, [])
key_up s (negsuc n) = some (s, [])

unfoldable pub key_down : Connection → ℤ → Option (Connection × List (List ℕ))
key_down s index =
    if ltb (to_size index) (size_minus_one s)
    then show_entry s (next_index index)
    else some (
      record s { history_index = history_end s; char_buffer = [] },
      (prompt ++ clear_to_end) ∷ [],
    )

-- `HandleSpecialKey`, for 'A', 'B' and the others.
unfoldable pub handle_special_key : Connection → ℕ → Option (Connection × List (List ℕ))
handle_special_key s key =
    if key == 65
    then key_up s s.history_index
    else if key == 66
    then key_down s s.history_index
    else some (s, [])

-- `charBuffer.pop_back()`
abbrev pub pop_back : List ℕ → List ℕ
pop_back [] = []
pop_back (c ∷ []) = []
pop_back (c ∷ d ∷ cs) = c ∷ pop_back (d ∷ cs)

abbrev pub is_empty : {A : Type 0} → List A → Bool
is_empty [] = true
is_empty (x ∷ xs) = false

-- The branch of '\n' and '\r', before its echo.
unfoldable pub finish_line : Connection → Connection
finish_line s =
    let saved = record s { command_history = s.command_history ++ s.char_buffer ∷ [] } in
    let remembered =
      if is_empty s.char_buffer then s else record saved { history_index = history_end saved } in
    record remembered { line_buffer = s.line_buffer ++ s.char_buffer ∷ []; char_buffer = [] }

-- The branch of '\033': the two bytes after it, if they are there, are a key.
unfoldable pub escape_sequence : Connection → List ℕ → Option (Connection × List (List ℕ))
escape_sequence s (bracket ∷ key ∷ rest) =
    if bracket == 91 then handle_special_key s key else some (s, [])
escape_sequence s _ = some (s, [])

-- The state, the texts written by the keys, and the bytes of `returnBuffer`.
pub record Reading : Type 0 where
  pub state : Connection
  pub written : List (List ℕ)
  pub echo : List ℕ

abbrev pub reading : Connection → List ℕ → Reading
reading s echo = record { state = s; written = []; echo = echo }

abbrev pub key_reading : Option (Connection × List (List ℕ)) → List ℕ → Option Reading
key_reading none echo = none
key_reading (some (s, out)) echo = some (record { state = s; written = out; echo = echo })

-- The size of `buffer` and of `returnBuffer`.
abbrev pub buffer_size : ℕ
buffer_size = 64

-- Going on after bytes were put into `returnBuffer`; `none` is a write outside it.
unfoldable pub in_buffer : List ℕ → Option Reading → Option Reading
in_buffer echo next = if ltb buffer_size (length echo) then none else next

-- The loop of `ReadToBuffer` after its first test; `none` is a read outside the history or a write
-- outside `returnBuffer`.
unfoldable pub read_loop : Connection → List ℕ → List ℕ → Option Reading
read_loop s [] echo = some (reading s echo)
read_loop s (c ∷ cs) echo =
    let longer = echo ++ c ∷ [] in
    let typed =
      in_buffer longer (read_loop (record s { char_buffer = s.char_buffer ++ c ∷ [] }) cs longer) in
    let shown = if is_empty s.char_buffer then echo else longer in
    let erased =
      in_buffer shown (read_loop (record s { char_buffer = pop_back s.char_buffer }) cs shown) in
    let ended = echo ++ 13 ∷ 10 ∷ [] in
    if is_newline c
    then in_buffer ended (some (reading (finish_line s) ended))
    else if is_escape c
    then key_reading (escape_sequence s cs) echo
    else if is_backspace c
    then erased
    else typed

abbrev pub is_single_escape : List ℕ → Bool
is_single_escape (c ∷ []) = is_escape c
is_single_escape _ = false

-- `ReadToBuffer`, for the bytes that `read` gives. The first test of its loop sees a single escape
-- byte; a command in process makes it drop the bytes. `none`: `read` gives more bytes than `buffer`
-- has room for, or the loop reads or writes outside.
unfoldable pub read_to_buffer : Connection → List ℕ → Option Reading
read_to_buffer s bytes =
    if ltb buffer_size (length bytes)
    then none
    else if is_single_escape bytes
    then some (reading (record s { escape_key_requested = true }) [])
    else if s.command_in_process
    then some (reading s [])
    else read_loop s bytes []

-- What a reading makes the connection write.
abbrev pub all_written : Reading → List (List ℕ)
all_written r = if is_empty r.echo then r.written else r.written ++ r.echo ∷ []

-- The front of the queue of lines, taken away, or the empty line.
unfoldable pub pop_front : Connection → List (List ℕ) → Connection × List ℕ
pop_front s [] = (s, [])
pop_front s (line ∷ lines) = (record s { line_buffer = lines }, line)

-- The result of `ReadLine` after `ReadToBuffer`.
abbrev pub line_read : Reading → Connection × List ℕ × List (List ℕ)
line_read r = let (s, line) = pop_front r.state r.state.line_buffer in (s, line, all_written r)

-- `ReadLine`, for the lines in the queue: the new state, the line, and what is written.
unfoldable pub next_line :
    Connection → List ℕ → List (List ℕ) → Option (Connection × List ℕ × List (List ℕ))
next_line s bytes [] = do r ← read_to_buffer s bytes; some (line_read r)
next_line s bytes (line ∷ lines) = some (record s { line_buffer = lines }, line, [])

unfoldable pub read_line : Connection → List ℕ → Option (Connection × List ℕ × List (List ℕ))
read_line s bytes = next_line s bytes s.line_buffer

-- `SetCommandInProcess`, `getEscapeKeyRequested` and `acknowledgeEscapeKeyRequest`.
unfoldable pub set_command_in_process : Connection → Bool → Connection
set_command_in_process s in_process = record s { command_in_process = in_process }

unfoldable pub acknowledge_escape_key_request : Connection → Connection
acknowledge_escape_key_request s = record s { escape_key_requested = false }
