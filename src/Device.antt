-- ===== src/Device.antt =====
-- src/LogicElements/src/Device: the board that runs an engine, and the commands of a device.
pub mod Board
pub mod Commands
