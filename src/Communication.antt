-- ===== src/Communication.antt =====
-- src/LogicElements/src/Communication: the transmission buffer, and the messages of the command line.
pub mod UartTx
pub mod Comms
pub mod Irigb
pub mod Connection
