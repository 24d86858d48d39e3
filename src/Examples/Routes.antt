-- ===== src/Examples/Routes.antt =====
-- Requests to the control plane's routes.
use deploy_os.Base.{String, ◌≡◌, refl, true, none, some, [], ◌∷◌, ◌==◌, if◌then◌else◌}
use deploy_os.Go.Errors.{sentinel, is, Result, ok, err}
use deploy_os.Logging.{sent, middleware}
use deploy_os.Devices.Table.{list_by_user}
use deploy_os.Devices.Service.{is_owner}
use deploy_os.CommandBus.Wire.{Request, Response}
use deploy_os.CommandBus.Handler.{plan, refuse, send}
use deploy_os.ControlPlane.Routes.{HttpRequest, Backend, planned, serve, Encoders, page_writes}
use deploy_os.ControlPlane.Routes.Answers.{Guarded, serve-Guarded}
use deploy_os.ControlPlane.Routes.Logged.{is_known, serve_logged}
use deploy_os.Examples.Access
use deploy_os.Examples.Devices.{directory, table}

abbrev backend : Backend
backend = record {
  authenticate = directory;
  checks = ("database", λ db. none) ∷ [];
  is_connected = λ id. id == "d-1";
  issue = λ d. ok ("jwt", 200);
  parse_uuid = λ s. ok tt;
  decode_register = λ body. none;
  decode_send = λ body. if body == "ping" then some Access.ping else none;
  version = "0.1.0";
}

-- A command for the device d-1.
abbrev command_by : String → HttpRequest
command_by header = record {
  method = "POST";
  path = "api" ∷ "v1" ∷ "devices" ∷ "d-1" ∷ "commands" ∷ [];
  header = header;
  body = "ping";
}

ann_sends :
    serve backend (command_by "Bearer ann") table
    ≡ (table, planned (send "d-1" Access.ping_request))
unfolding serve plan is_owner list_by_user
ann_sends = refl

stranger_refused :
    serve backend (command_by "") table ≡ (table, planned (refuse 401 "missing bearer token"))
unfolding serve plan
stranger_refused = refl

serve-Guarded_example :
    Guarded backend (command_by "Bearer ann") table (serve backend (command_by "Bearer ann") table)
serve-Guarded_example = serve-Guarded backend (command_by "Bearer ann") table

abbrev encoders : Encoders
encoders = record {
  of_status = λ s. "status";
  of_version = λ v. v.name;
  of_registered = λ r. r.token;
  of_devices = λ ds. "devices";
  of_response = λ r. r.message;
}

abbrev timed_out : String → Request → Result Response
timed_out id req =
    err
      (sentinel (record { name = "context.DeadlineExceeded"; text = "context deadline exceeded" }))

serve_logged_example :
    let writes = page_writes encoders timed_out (serve backend (command_by "Bearer ann") table).1 in
    let entry =
      (middleware (λ request_id. writes) (some "r-1") "POST" "/api/v1/devices/d-1/commands").1 in
    (entry.status ≡ sent writes) × (is_known (sent writes) ≡ true)
serve_logged_example =
    serve_logged encoders timed_out backend (command_by "Bearer ann") table (some "r-1")
      "/api/v1/devices/d-1/commands"

times_out :
    sent (page_writes encoders timed_out (serve backend (command_by "Bearer ann") table).1) ≡ 504
unfolding serve plan is_owner list_by_user page_writes sent is
times_out = refl
