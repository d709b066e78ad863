-- ===== src/Examples/Device.antt =====
-- A board with an output, a node under an override, and requests to a device.
use logic_elements.Base.{
  ℕ, ◌≡◌, refl, Bool, true, false, List, [], ◌∷◌, ◌++◌, Option, none, some, arith, replicate,
  if◌then◌else◌, ltb,
}
use logic_elements.Time.{Time}
use logic_elements.Core.Port.{digital, Name, output_port}
use logic_elements.Core.Element.{Element}
use logic_elements.Core.Element.Types.{bytes, node_digital}
use logic_elements.Core.Engine.{
  Engine, Behaviour, get_element, find_name, update_elements, update_element,
}
use logic_elements.Core.Engine
use logic_elements.Core.Engine.Text.{c_string, copy_and_clamp}
use logic_elements.Core.Node.{node_update, override_node}
use logic_elements.Core.Node.Override.{run_node, timer_at, run_node-override}
use logic_elements.Communication.Comms.{req_ser, msg_status}
use logic_elements.Device.Board.{
  Board, BoardIo, HalCall, board, board_io, add_output, attach_engine, start, update,
  update_outputs,
}
use logic_elements.Device.Board.Validate.{Updated, board_found, update-Updated}
use logic_elements.Device.Board.Bound.{
  Reach, here, next, adding_output, attaching, starting, IsBound, Reach-IsBound,
}
use logic_elements.Device.Board.Outputs.{Shows, writes, update_outputs-writes}
use logic_elements.Device.Commands.{
  Surroundings, execute, handle_request, next_prompt, not_attached, send_message, bad_message,
}
use logic_elements.Device.Commands.Sent.{
  joined_texts, message_texts, handle_request-sent, send_message-full,
}
use logic_elements.Examples.Build.{whole, now, three}

-- An element "A" that keeps its output.
abbrev lamp : Element ℕ Bool
lamp = record {
  element_type = node_digital;
  inputs = [];
  outputs = output_port true (bytes "output") digital ∷ [];
  state = 0;
}

abbrev one_lamp : Engine ℕ Bool
one_lamp = record { elements = 0 ∷ []; elements_by_name = (bytes "A", 0) ∷ []; store = lamp ∷ [] }

abbrev still : Behaviour ℕ Bool
still t readings el = el

-- The memory of an entry.
abbrev blank : BoardIo
blank = board_io [] 0 0 false

abbrev new_board : Board ℕ Bool
new_board = board true (blank ∷ []) [] (blank ∷ [])

abbrev output_a : BoardIo
output_a = board_io (bytes "A") 1 2 true

abbrev wired_board : Board ℕ Bool
wired_board = board true [] [] (output_a ∷ [])

update-Updated_example :
    Updated still one_lamp now
      (board_found one_lamp (attach_engine wired_board (some one_lamp)))
      true
      (update still (attach_engine wired_board (some one_lamp)) now)
unfolding attach_engine
update-Updated_example =
    update-Updated still one_lamp (attach_engine wired_board (some one_lamp)) now refl refl

abbrev running_board : Board ℕ Bool
running_board = start (attach_engine (record new_board { outputs = output_a ∷ [] }) (some one_lamp))

added_run :
    add_output new_board 0 (bytes "A") 1 2 true
    ≡ some (
      record new_board { outputs = output_a ∷ [] },
      HalCall.configure_digital_output output_a.gpio ∷ [],
    )
unfolding add_output
added_run = refl

reached : Reach still new_board running_board
reached =
    next
      (next
        (next here (
          adding_output new_board (record new_board { outputs = output_a ∷ [] }) 0 (bytes "A") 1 2
            true _ refl added_run))
        (attaching (record new_board { outputs = output_a ∷ [] }) (some one_lamp)))
      (starting (attach_engine (record new_board { outputs = output_a ∷ [] }) (some one_lamp)))

Reach-IsBound_example :
    IsBound running_board × ((d : Board ℕ Bool) × (update still running_board now ≡ some d))
Reach-IsBound_example = Reach-IsBound still new_board running_board now refl reached

abbrev attached_board : Board ℕ Bool
attached_board = start (attach_engine wired_board (some one_lamp))

abbrev lit : Engine ℕ Bool
lit = Engine.update still one_lamp now

output_a-Shows : Shows one_lamp lit.store output_a true
unfolding get_element find_name c_string copy_and_clamp Engine.update update_elements update_element
output_a-Shows = refl

lamp_found : board_found one_lamp attached_board ≡ true
unfolding attach_engine start get_element find_name c_string copy_and_clamp
lamp_found = refl

update_outputs-writes_example :
    (d : Board ℕ Bool) × (update still attached_board now ≡ some d)
    × (d.engine ≡ some lit)
    × (update_outputs d.has_hal lit.store d.outputs
        ≡ some (if true then writes (output_a ∷ []) (true ∷ []) else []))
unfolding attach_engine start
update_outputs-writes_example =
    update_outputs-writes still one_lamp attached_board now (true ∷ []) refl refl lamp_found
      (output_a-Shows, tt)

-- One reading under an override of five seconds, and a further update.
abbrev later : Time
later = record now { second = 3 }

run_node-override_example :
    let n = record three { last_time_stamp = now } in
    let updates : List (Time × Option Bool) = (later, some false) ∷ [] in
    let m = run_node whole (override_node whole n true 5) updates in
    let past = ltb 5 (timer_at whole 0 now updates) in
    (node_update whole m (record now { second = 9 }) none).output
    ≡ (if past then n.output else true)
run_node-override_example =
    run_node-override whole (record three { last_time_stamp = now }) true 5
      ((later, some false) ∷ []) (record now { second = 9 }) none (refl, tt)

abbrev around : Surroundings
around = record {
  rounds = (false, true) ∷ (true, false) ∷ [];
  escapes = false ∷ [];
  event_line = λ i event. bytes "event";
  board_info = bytes "Board";
  engine_info = bytes "Engine";
}

abbrev first_byte : ℕ → Bool
first_byte n = ltb 0 (n)

unattached : execute whole first_byte around none (req_ser 5) ≡ some (none, not_attached ∷ [])
unfolding execute
unattached = refl

handle_request-sent_example :
    (ts : List Name) × (handle_request whole first_byte around none (req_ser 5)
      ≡ some (none, ts ++ next_prompt ∷ []))
    × (joined_texts ts ≡ message_texts (not_attached ∷ []))
handle_request-sent_example =
    handle_request-sent whole first_byte around none none (req_ser 5) (not_attached ∷ []) refl
      unattached (omega arith, tt)

send_message-full_example : send_message msg_status (bad_message (replicate 200 65)) ≡ none
send_message-full_example = send_message-full msg_status (replicate 200 65) (omega arith)
