-- ===== src/ControlPlane/Routes.antt =====
-- cmd/server/main.go: the routes of the control plane's HTTP server, with the middleware around them. What the Command Bus returns to
-- a call of Service.Send is a parameter, and so are what JSON decodes of a body and encodes of an answer.
pub mod Paths
pub mod Answers
pub mod Logged
use deploy_os.Base.{ℕ, code, String, Bool, not, Option, List, [], ◌∷◌}
use deploy_os.Go.Errors.{GoError, Result}
use deploy_os.Go.Mux.{
  Pattern, Segment, literal, wildcard, Routed, found, no_method, no_path, route, path_value,
}
use deploy_os.Auth.{User, Reply, success, failure}
use deploy_os.Monitoring
use deploy_os.Monitoring.{VersionResponse, Status}
use deploy_os.Logging.{Write, write_header, write, writes_of, middleware}
use deploy_os.Devices.{RegisterInput, Device}
use deploy_os.Devices.Service.{is_owner}
use deploy_os.Devices.Table.{Database, repository}
use deploy_os.Devices.Handler.{RegisterResponse, ListedDevice, register_device, list_devices}
use deploy_os.CommandBus.Wire.{Request, Response}
use deploy_os.CommandBus.Handler.{SendCommandRequest, Plan, refuse, send, plan, answer}

-- The handlers that main registers.
pub data Endpoint : Type 0 where
  healthz version register list commands : Endpoint

-- mux.HandleFunc, in order
unfoldable pub routes : List (Pattern × Endpoint)
routes =
    (record { method = "GET"; path = literal "healthz" ∷ [] }, healthz)
    ∷ (record { method = "GET"; path = literal "version" ∷ [] }, version)
    ∷ (
      record {
        method = "POST";
        path = literal "api" ∷ literal "v1" ∷ literal "devices" ∷ literal "register" ∷ [];
      },
      register,
    )
    ∷ (
      record { method = "GET"; path = literal "api" ∷ literal "v1" ∷ literal "devices" ∷ [] },
      list,
    )
    ∷ (
      record {
        method = "POST";
        path =
            literal "api" ∷ literal "v1" ∷ literal "devices" ∷ wildcard ∷ literal "commands" ∷ [];
      },
      commands,
    )
    ∷ []

pub record HttpRequest : Type 0 where
  pub method : String
  -- the segments of the path
  pub path : List String
  -- Authorization
  pub header : String
  pub body : String

-- What main hands to the handlers.
pub record Backend : Type 0 where
  pub authenticate : String → Result User
  -- the check "database"
  pub checks : List (String × (Database → Option GoError))
  pub is_connected : String → Bool
  pub issue : Device → Result (String × ℕ)
  pub parse_uuid : String → Result (Unit {0})
  pub decode_register : String → Option RegisterInput
  pub decode_send : String → Option SendCommandRequest
  pub version : String

-- What a handler answers, up to the call of Service.Send.
pub data Page : Type 0 where
  health : ℕ × Status → Page
  versioned : VersionResponse → Page
  registered : Reply RegisterResponse → Page
  devices : Reply (List ListedDevice) → Page
  planned : Plan → Page
  -- net/http's own 405 and 404
  not_allowed not_found : Page

unfoldable pub handle : Backend → HttpRequest → Endpoint → List String → Database → Database × Page
unfolding register_device list_devices plan is_owner Monitoring.health
handle b r healthz values db = (db, health (Monitoring.health b.checks db))
handle b r version values db =
    (db, versioned (record { name = "deployos-server"; version = b.version }))
handle b r register values db =
    let done =
      register_device repository b.issue b.parse_uuid b.authenticate r.header
        (b.decode_register r.body) db in
    (done.0, registered done.1)
handle b r list values db =
    (db, devices (list_devices repository b.is_connected b.authenticate r.header db))
handle b r commands values db = (
  db,
  planned (
      plan b.authenticate (λ user_id id. is_owner repository user_id id db) r.header
        (path_value values) (b.decode_send r.body)),
)

unfoldable pub dispatch : Backend → HttpRequest → Routed Endpoint → Database → Database × Page
unfolding handle
dispatch b r (found endpoint values) db = handle b r endpoint values db
dispatch b r no_method db = (db, not_allowed)
dispatch b r no_path db = (db, not_found)

-- mux.ServeHTTP
unfoldable pub serve : Backend → HttpRequest → Database → Database × Page
unfolding dispatch route routes
serve b r db = dispatch b r (route routes r.method r.path) db

-- What JSON makes of the answers' bodies.
pub record Encoders : Type 0 where
  pub of_status : Status → String
  pub of_version : VersionResponse → String
  pub of_registered : RegisterResponse → String
  pub of_devices : List ListedDevice → String
  pub of_response : Response → String

-- The header that a status other than ok is written with, in front of the body
abbrev pub health_writes : Encoders → ℕ × Status → List Write
health_writes json (code, Monitoring.status_ok) = write (json.of_status Monitoring.status_ok) ∷ []
health_writes json (code, Monitoring.status_degraded) =
    write_header 503 ∷ write (json.of_status Monitoring.status_degraded) ∷ []

-- The writes of a handler, where the Command Bus returns a result to each call of Service.Send.
unfoldable pub page_writes : Encoders → (String → Request → Result Response) → Page → List Write
unfolding writes_of answer
page_writes json service_send (health h) = health_writes json h
page_writes json service_send (versioned v) = write (json.of_version v) ∷ []
page_writes json service_send (registered r) = writes_of json.of_registered r
page_writes json service_send (devices r) = writes_of json.of_devices r
page_writes json service_send (planned (refuse status m)) =
    writes_of json.of_response (failure status m)
page_writes json service_send (planned (send device_id req)) =
    writes_of json.of_response (answer (service_send device_id req))
page_writes json service_send not_allowed = write_header 405 ∷ write "Method Not Allowed\n" ∷ []
page_writes json service_send not_found = write_header 404 ∷ write "404 page not found\n" ∷ []
