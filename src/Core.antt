-- ===== src/Core.antt =====
-- src/LogicElements/include/Core and src/LogicElements/src/Core, but for the clock (`Time`): ports,
-- elements with their connections, and the engine that owns and runs them.
pub mod Port
pub mod Element
pub mod Order
pub mod Engine
pub mod Node
