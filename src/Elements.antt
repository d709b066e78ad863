-- ===== src/Elements.antt =====
-- The digital elements of src/LogicElements/src/Elements/Digital, each a state machine whose
-- `Update` reads its input ports and writes its output. A reading of an input port is `none` where
-- the port is not connected, and otherwise the value of the output port that it points to.
pub mod Gates
pub mod Trigger
pub mod Counter
pub mod Timer
pub mod Ser
pub mod Mux
pub mod Floats
pub mod Overcurrent
pub mod Pid
pub mod Winding
