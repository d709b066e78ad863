-- ===== src/Examples.antt =====
-- Runs of the definitions and of the theorems on small inputs.
mod Network
mod Clocks
mod Digital
mod Uart
mod Commands
mod Build
mod Irigb
mod Connection
mod Device
mod Control
mod Loading
