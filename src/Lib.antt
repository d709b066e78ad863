-- ===== src/Lib.antt =====
-- LogicElements: a library of logical and analog elements for protection relays and controllers,
-- connected by named, typed ports and updated in passes by an engine.
--
-- The parts and how they interact. An `Engine` (src/LogicElements/src/Core/le_Engine.cpp) owns
-- elements by name. `AddElement` registers an element, `AddNet` connects output ports to input
-- ports by name through `Element::Connect`, and both sort the elements by `Element::GetOrder`, a
-- walk over the connections. `Update` calls every element's `Update` in that order with the time.
-- An element reads its input ports, each of which may point at another element's output port, and
-- sets its output ports. `Time` (le_Time.cpp) is a calendar time that timers compare and add.
-- `comms` parses command lines to requests and splits responses into parts. `UARTTx` is a ring
-- that feeds a serial port. `IRIGB` decodes a time signal and aligns its clock, a `Time`. A `Board`
-- has a table of inputs and outputs that name elements of its engine, and runs the engine. An
-- `AbstractConnectionHandler` edits the bytes of a client to lines, and `DeviceCommandHandler`
-- parses each line by `comms`, executes it on the board's engine and writes the responses.
-- `Builder` makes an engine from a configuration in JSON and attaches it to a board.
--
-- Which file models which part:
--   Base, Base/*: Boolean tests, lists, integers and machine words over native numbers; windows of
--     a ring.
--   Time: the class `Time`: Update, the constructors, operator- and operator+, HasElapsed, Align,
--     ToMicrosecondsSinceEpoch, ToNanosecondsSinceEpoch. Time/Calendar: leap years and months.
--     Time/Epoch, Carry, Sum, Order, MonthDay: the proofs.
--   Core/Port: include/Core/le_Port.hpp. Core/Element: `Element` with its ports and `Connect`;
--     Core/Element/Types: `ElementType` and `ParseElementType`. Core/Order: `GetOrder` and
--     `FindOrder`. Core/Engine: `Engine`; Core/Engine/Text: its fixed buffers for names. The
--     children hold the proofs.
--   Elements/Gates: AND, OR, NOT. Elements/Trigger: RTrig, FTrig. Elements/Counter, Timer, Mux,
--     Ser: the element of that name, under src/LogicElements/src/Elements/Digital.
--   Elements/Overcurrent, Elements/Pid: src/LogicElements/src/Elements/Control, over the float
--     operations of Elements/Floats. Elements/Winding: le_Analog1PWinding.cpp in Elements/Power.
--   Core/Node: include/Core/le_Node.hpp, a node with its history and override.
--   Communication/Irigb: le_IRIGB.cpp; Irigb/Signal is the signal that it decodes.
--   Communication/Connection: le_AbstractConnectionHandler.cpp, the line editor, with its two
--     buffers of 64 bytes: where the code would write outside one, the model gives `none`.
--   Device/Board: src/LogicElements/src/Device/le_Board.cpp. Device/Commands:
--     le_DeviceCommandHandler.cpp beside it, a request and its responses.
--   Digital: the build without LE_ELEMENTS_ANALOG: the constructors of the digital elements, their
--     dispatch, and `AddElement(ElementTypeDef*)`.
--   Communication/UartTx: src/LogicElements/src/Communication/UARTTx.cpp. Communication/Comms:
--     comms.cpp beside it, the commands as text and the responses in parts.
--   Builder, Builder/Values, Builder/Items: src/LogicElements/src/Builder/le_Builder.cpp;
--     Builder/Loops, Constructs, Typed, Named and Reports: the proofs. The build is the digital one,
--     whose `ParseElementType` (`parse_digital_type`) has the digital names only, without LE_DNP3.
--   Examples: runs on small inputs.
--
-- How state and operations correspond. A class is a record of its fields, a method a function
-- from the object before to the object after and its result. Elements live in a store, a list; a
-- pointer to an element is its place there, and a pointer to an output port is that place and the
-- port's place among the element's outputs. The reading of an input port is an `Option`: `none`
-- where it is not connected. What the derived classes add to `Element` is a type parameter, and
-- the virtual `Update` is a parameter of the engine's update pass; Digital gives both for its
-- elements. A field of w bits is a number, and what the code does to it keeps its `% 2 ^ w`;
-- differences that may be negative are integers.
--
-- Bounds and fuel. `find_order` has fuel for the depth of its recursion: the rank of an element in
-- a network without cycles is enough, and in a cycle of three no fuel is. `roll_years` has fuel
-- for the loop over years, and gets the number of days, each round taking away at least 365. The
-- builder passes the fuel of `find_order` on. The loop of `UARTTx::Write` has fuel for a round per
-- byte, each round copying at least one. `find_month` has its twelve rounds. `partialize_loop` has
-- fuel for a round per byte, each part having at least one.
--
-- Not modelled: the system clock and all printing; the arithmetic and conversion elements, the
-- other power elements and Math; floats, whose operations are parameters; DNP3, also where the
-- builder configures it (there LoadConfig may return false with the engine attached); sockets,
-- threads and their waits, and board support; `UpdateInputs` of a board, which no code calls; the
-- execution times of the engine (LE_ENGINE_EXECUTION_DIAG); the libraries under external/, of which
-- JSON values are a record of functions.
mod Base
pub mod Time
pub mod Core
pub mod Digital
pub mod Elements
pub mod Communication
pub mod Device
pub mod Builder
mod Examples
