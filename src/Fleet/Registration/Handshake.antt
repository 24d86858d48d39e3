-- ===== src/Fleet/Registration/Handshake.antt =====
-- internal/connection/client.go against internal/connection/server.go: an agent that registered authenticates with its token.
use deploy_os.Agent.Registrar.{Registration}
