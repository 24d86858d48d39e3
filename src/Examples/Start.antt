-- ===== src/Examples/Start.antt =====
-- The start of the agent at concrete inputs.
use deploy_os.Base.{◌≡◌, refl, true, false, none, some, [], ◌∷◌, arith, eq_iff}
use deploy_os.Go.Errors.{GoError, other, wrap, Result, ok, err}
use deploy_os.Agent.Commands.{SystemInfo}
use deploy_os.Agent.Identity.{Disk, load_or_create_device_id, load_token, IsTrimmed}
use deploy_os.Agent.Registrar.{
  Json, HttpRequest, HttpResponse, Registration, registered, not_registered,
}
use deploy_os.Agent.Start.{AgentConfig, start, start-connect_once}
use deploy_os.Connection.Client.{DeviceInfo, Network, connect_once}
use deploy_os.Devices.Handler.{RegisterResponse}
use deploy_os.Proto.{empty}
use deploy_os.Go.Map.{insert, lookup}
use deploy_os.Go.Integer.{pos}

abbrev pub json : Json
json = record {
  encode_request = λ r. ok r.device_id;
  decode_response = λ body. err (other "EOF");
  decode_error = λ body. "";
  itoa = λ n. "n";
}

-- The control plane is not there.
abbrev pub call : HttpRequest → Result HttpResponse
call r = err (other "connection refused")

abbrev settings : AgentConfig
settings = record {
  api_base_url = "http://localhost:8080";
  user_access_token = "ann";
  version = "0.1.0";
}

abbrev system : SystemInfo
system = record {
  hostname = "box";
  operating_system = "linux";
  architecture = "amd64";
  cpu_cores = pos 4;
  memory_bytes = 1024;
}

abbrev pub disk : Disk
disk = record {
  files = [];
  unreadable = λ name. none;
  no_directory = none;
  unwritable = λ name. none;
}

abbrev pub after : Disk
after = record disk { files = ("device_id", "7b1c") ∷ [] }

abbrev pub box : DeviceInfo
box = record {
  id = "7b1c";
  hostname = "box";
  operating_system = "linux";
  architecture = "amd64";
  deployos_version = "0.1.0";
}

abbrev pub log : Registration
log = not_registered (wrap "calling control plane: " (other "connection refused") "")

started : start json call settings "7b1c" (ok system) disk ≡ (after, ok (box, log))
unfolding start load_or_create_device_id lookup insert
    deploy_os.Agent.Registrar.register_with_control_plane
started = refl

id-IsTrimmed : IsTrimmed "7b1c"
unfolding deploy_os.Go.Text.trim_space
id-IsTrimmed = record { ends = refl; some_text = λ q. ground (arith, eq_iff "7b1c" "") }

abbrev no_token : GoError
no_token = other "no device token persisted yet; waiting for registration"

without_token : load_token disk ≡ err no_token
unfolding load_token lookup
without_token = refl

failed_registration : (resp : RegisterResponse) → ¬ (log ≡ registered resp)
failed_registration resp q = cc

-- A network that would take anything.
abbrev net : Network
net = record {
  dial = none;
  open_stream = none;
  sent = λ e. none;
  first = ok empty;
  incoming = [];
  last = other "closed";
}

start-connect_once_example : connect_once true box (load_token after) net ≡ record {
  authenticated = false;
  error = some (wrap "loading device token: " no_token "");
  request = none;
  commands = [];
}
start-connect_once_example =
    start-connect_once json call settings "7b1c" (ok system) disk after box log no_token true net
      without_token started failed_registration
