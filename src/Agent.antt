-- ===== src/Agent.antt =====
-- internal/agent: what the agent keeps on disk, and the commands that it carries out.
pub mod Identity
pub mod Commands
pub mod Registrar
pub mod Start
pub mod Routes
pub mod Process
