-- ===== src/Examples/Connection.antt =====
-- A connection, with keys and lines that a client types.
use logic_elements.Base.{
  ℕ, ◌+◌, ◌≤◌, ◌≡◌, refl, List, [], ◌∷◌, ◌++◌, none, some, length, replicate, arith,
}
use logic_elements.Base.Int.{pos}
use logic_elements.Communication.Connection.{
  Connection, Reading, reading, finish_line, connection, read_to_buffer, read_loop, in_buffer,
}
use logic_elements.Communication.Connection.Keys.{
  InHistory, press, press-InHistory, press-down_twice,
}
use logic_elements.Communication.Connection.Plain.{edit}
use logic_elements.Communication.Connection.Edit.{committed, joined, read_lines, read_lines-typed}
use logic_elements.Communication.Connection.Echo.{read_to_buffer-echo_overflow}

-- Two lines are in the history.
abbrev two_lines : Connection
two_lines = record connection {
  command_history = (65 ∷ []) ∷ (66 ∷ []) ∷ [];
  history_index = pos 1;
}

two_lines-InHistory : InHistory two_lines 1
two_lines-InHistory = record {
  index_eq = refl;
  index_le = omega arith;
  not_empty = omega arith;
  history_lt = omega arith;
}

press-InHistory_example :
    (t : Connection) × (j : ℕ) × (press two_lines (65 ∷ 65 ∷ 66 ∷ 67 ∷ []) ≡ some t)
    × InHistory t j
    × (t.command_history ≡ two_lines.command_history)
press-InHistory_example = press-InHistory two_lines 1 (65 ∷ 65 ∷ 66 ∷ 67 ∷ []) two_lines-InHistory

press-down_twice_example : press connection (66 ∷ 66 ∷ []) ≡ none
press-down_twice_example = press-down_twice connection refl refl

read_lines-typed_example :
    let line = edit [] (joined ((83 ∷ 88 ∷ []) ∷ []) ++ (8 ∷ 69 ∷ 82 ∷ [])) in
    read_lines connection ((83 ∷ 88 ∷ []) ∷ [] ++ ((8 ∷ 69 ∷ 82 ∷ []) ++ 13 ∷ 10 ∷ []) ∷ [])
    ≡ some (committed connection line, replicate 1 [] ++ line ∷ [])
read_lines-typed_example =
    read_lines-typed connection ((83 ∷ 88 ∷ []) ∷ []) (8 ∷ 69 ∷ 82 ∷ []) (10 ∷ []) 13 refl refl
      ((((refl, refl), ((refl, refl), tt)), omega arith), tt)
      ((refl, refl), ((refl, refl), ((refl, refl), tt))) refl (omega arith) (omega arith)

abbrev typed : Reading
typed = reading (finish_line (record connection { char_buffer = 83 ∷ [] })) (83 ∷ 13 ∷ 10 ∷ [])

typed_read : read_to_buffer connection (83 ∷ [] ++ 10 ∷ []) ≡ some typed
unfolding read_to_buffer read_loop in_buffer
typed_read = refl

abbrev letter : List ℕ
letter = 83 ∷ []

read_to_buffer-echo_overflow_example :
    (length typed.echo ≡ length letter + 2) × (length letter ≤ 62)
read_to_buffer-echo_overflow_example =
    read_to_buffer-echo_overflow connection (83 ∷ []) [] 10 typed refl (((refl, refl), refl), tt)
      refl typed_read
