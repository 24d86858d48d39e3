-- ===== src/Agent/Routes.antt =====
-- internal/agent/agent.go: the routes of the agent's own HTTP server, and Agent.handleVersion.
use deploy_os.Base.{ℕ, String, ◌≡◌, refl, Bool, true, List, [], ◌∷◌}
use deploy_os.Go.Mux.{Pattern, literal, Routed, found, no_method, no_path, route}
use deploy_os.Monitoring
use deploy_os.Monitoring.{VersionResponse}
use deploy_os.Agent.Start.{agent_health}

pub data Endpoint : Type 0 where
  healthz version : Endpoint

-- mux.HandleFunc of Run, in order
routes : List (Pattern × Endpoint)
routes =
    (record { method = "GET"; path = literal "healthz" ∷ [] }, healthz)
    ∷ (record { method = "GET"; path = literal "version" ∷ [] }, version)
    ∷ []

pub data Page : Type 0 where
  health : ℕ × Monitoring.Status → Page
  versioned : VersionResponse → Page
  -- net/http's own 405 and 404
  not_allowed not_found : Page

-- Agent.handleVersion
handle_version : String → VersionResponse
handle_version agent_version = record { name = "deployos-agent"; version = agent_version }

dispatch : String → Bool → Routed Endpoint → Page
unfolding handle_version
dispatch agent_version connected (found healthz values) = health (agent_health connected)
dispatch agent_version connected (found version values) = versioned (handle_version agent_version)
dispatch agent_version connected no_method = not_allowed
dispatch agent_version connected no_path = not_found

-- mux.ServeHTTP, with what Client.Connected reports
unfoldable pub serve : String → Bool → String → List String → Page
unfolding dispatch routes
serve agent_version connected method path =
    dispatch agent_version connected (route routes method path)

pub serve-health :
    (agent_version : String) (connected : Bool)
    → serve agent_version connected "GET" ("healthz" ∷ []) ≡ health (agent_health connected)
unfolding serve route
serve-health agent_version connected = refl

only_get : serve "0.1.0" true "POST" ("version" ∷ []) ≡ not_allowed
unfolding serve route
only_get = refl

no_api : serve "0.1.0" true "GET" ("api" ∷ []) ≡ not_found
unfolding serve route
no_api = refl
