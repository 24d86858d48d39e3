-- ===== src/Examples/Fleet.antt =====
-- The agent and the control plane together at concrete inputs: a registration, a command, a stream that is overtaken.
use deploy_os.Base.{
  String, ◌≡◌, refl, Bool, true, false, ◌&&◌, none, some, [], ◌∷◌, nat_eq, ◌==◌, if◌then◌else◌,
}
use deploy_os.Go.Errors.{other, Result, ok, err}
use deploy_os.Go.Integer.{ℤ, pos, negsuc}
use deploy_os.Proto.{Envelope, get_authenticate_response, command_request}
use deploy_os.Agent.Commands.{SystemInfo}
use deploy_os.Agent.Identity.{Disk}
use deploy_os.Agent.Registrar.{Json, DeviceRegisterRequest}
use deploy_os.Devices.Table.{Database}
use deploy_os.Devices.Handler.{RegisterResponse}
use deploy_os.Connection.Client.{DeviceInfo, Network, auth_envelope, connect_once}
use deploy_os.Connection.Client.Handshake.{IsReceiving}
use deploy_os.Connection.Server
use deploy_os.Connection.Server.{Server, new_server, find_handle, opens, authenticated}
use deploy_os.CommandBus.Service.{envelope, step, results, receives, returned, waiting}
use deploy_os.CommandBus.Dispatcher.{wire_handler}
use deploy_os.Fleet.Registration.{ServerJson}
use deploy_os.Fleet.Command.{answers, response_for, answers_arrive}
use deploy_os.Fleet.FirstMessage.{overtaken, written_on, overtaken-connect_once}
use deploy_os.Examples.CommandBus.{agent, call, sent, sent_reached, sent_calls, sent_empty}
use deploy_os.Examples.Agent.{disk, now, expiry}

answers_arrive_example :
    (reply : Envelope) × (answers (wire_handler agent) (envelope (call waiting) ∷ []) ≡ reply ∷ [])
    × ((step (receives 0) (step (results "laptop" reply) sent)).calls 0
        ≡ some (call (returned (ok (response_for agent (call waiting))))))
answers_arrive_example =
    answers_arrive sent_reached agent "laptop" 0 (call waiting) sent_calls refl sent_empty

abbrev box : DeviceInfo
box = record {
  id = "d-1";
  hostname = "box";
  operating_system = "linux";
  architecture = "amd64";
  deployos_version = "0.1.0";
}

abbrev command : Envelope
command = command_request (record { id = "c-1"; kind = "PING"; arguments = none })

abbrev net : Network
net = record {
  dial = none;
  open_stream = none;
  sent = λ e. none;
  first = ok command;
  incoming = [];
  last = other "closed";
}

receiving : IsReceiving box "jwt" command net
receiving = record { dialed = refl; opened = refl; delivered = refl; answered = refl }

overtaken-connect_once_example :
    (find_handle "d-1" (Server.step (opens "d-1" "u-1" "s-1") new_server) ≡ ok 0)
    × (written_on 0 (overtaken "d-1" "u-1" "s-1" 7 command new_server)
        ≡ command ∷ authenticated "s-1" ∷ [])
    × (connect_once true box (ok "jwt") net ≡ record {
      authenticated = false;
      error = some (other "expected an authenticate response as the first message");
      request = some (auth_envelope box "jwt");
      commands = [];
    })
unfolding new_server get_authenticate_response
overtaken-connect_once_example =
    overtaken-connect_once "d-1" "u-1" "s-1" 7 command new_server true box "jwt" net refl receiving

-- JSON for one request and one response.
abbrev system : SystemInfo
system = record {
  hostname = "box";
  operating_system = "linux";
  architecture = "amd64";
  cpu_cores = pos 4;
  memory_bytes = 1024;
}

abbrev request : DeviceRegisterRequest
request = record {
  device_id = "d-1";
  hostname = "box";
  operating_system = "linux";
  architecture = "amd64";
  cpu_cores = pos 4;
  memory_bytes = 1024;
  deployos_version = "0.1.0";
}

abbrev response : RegisterResponse
response = record { device_id = "d-1"; token = "jwt"; expires_at = expiry }

abbrev is_four : ℤ → Bool
is_four (pos n) = nat_eq n 4
is_four (negsuc n) = false

abbrev is_request : DeviceRegisterRequest → Bool
is_request r =
    r.device_id == "d-1"
    && r.hostname == "box"
    && r.operating_system == "linux"
    && r.architecture == "amd64"
    && is_four r.cpu_cores
    && nat_eq r.memory_bytes 1024
    && r.deployos_version == "0.1.0"

abbrev is_response : RegisterResponse → Bool
is_response r = r.device_id == "d-1" && r.token == "jwt" && nat_eq r.expires_at expiry

abbrev json : Json
json = record {
  encode_request = λ r. if is_request r then ok "request" else err (other "no encoding");
  decode_response = λ body. if body == "response" then ok response else err (other "EOF");
  decode_error = λ body. "";
  itoa = λ n. "n";
}

abbrev server : ServerJson
server = record {
  decode_request = λ body. if body == "request" then some request else none;
  encode_response = λ r. if is_response r then ok "response" else err (other "no encoding");
  encode_error = λ message. message;
}

abbrev parse_id : String → Result (Unit {0})
parse_id s = ok tt

abbrev empty_table : Database
empty_table = record { rows = []; now = 9; failure = none }

abbrev with_token : Disk
with_token = record disk { files = ("device_token", "jwt") ∷ [] }
