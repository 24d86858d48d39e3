-- ===== src/Fleet.antt =====
-- How the agent and the control plane work together: registration, then authentication; a command and its result.
pub mod Registration
pub mod Command
pub mod FirstMessage
pub mod Delivery
pub mod Network
pub mod Presence
