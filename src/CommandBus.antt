-- ===== src/CommandBus.antt =====
-- internal/commandbus: requests and responses, the control plane's service, the agent's dispatcher and the HTTP handler.
pub mod Wire
pub mod Dispatcher
pub mod Service
pub mod Handler
