-- ===== src/Connection.antt =====
-- internal/connection: the Connection Manager, the server's side and the agent's side of the
-- persistent connection.
pub mod Manager
pub mod Auth
pub mod Server
pub mod Client
