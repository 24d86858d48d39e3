-- ===== src/Examples.antt =====
-- The theorems at concrete inputs, and tests of the definitions.
mod Applications
mod Connection
mod Reconnect
mod CommandBus
mod Devices
mod Agent
mod Access
mod Session
mod Runtime
mod Start
mod Fleet
mod ControlPlane
mod Delivery
mod Network
mod Process
mod Routes
mod Main
mod Inspect
mod Presence
