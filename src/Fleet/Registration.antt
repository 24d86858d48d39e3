-- ===== src/Fleet/Registration.antt =====
-- internal/agent/registrar.go against internal/devices/handler.go: a registration with the control plane's own handler.
pub mod Answer
pub mod Handshake
use deploy_os.Base.{ℕ, String, concat, ◌≡◌, Option, none, some, [], ◌∷◌}
use deploy_os.Go.Errors.{Result, ok, err}
use deploy_os.Auth.{User, Reply, success, failure, caller, IsCaller}
use deploy_os.Agent.Commands.{SystemInfo}
use deploy_os.Agent.Identity.{
  Disk, load_token, persist_device_token, IsTrimmed, device_token_file_name, load_token-persist,
}
use deploy_os.Agent.Registrar.{
  Json, HttpRequest, HttpResponse, DeviceRegisterRequest, Registration, registered, register,
  register_with_control_plane, register_request_of, after_register, persisted, register-IsAccepted,
  register_request,
}
use deploy_os.Devices.{Device, RegisterInput, err_invalid_input, err_owned_by_another_user}
use deploy_os.Devices.Service
use deploy_os.Devices.Service.{RegisterResult, device_of}
use deploy_os.Devices.Table.{Database, repository}
use deploy_os.Devices.Table.Owner.{lookup-own, IsTable, Upsert, upsert-Upsert, upserted-IsTable}
use deploy_os.Devices.Token.{DeviceClaims, issue, verify, IsJwt, verify-issue}
use deploy_os.Devices.Handler.{
  RegisterResponse, register_device, register_as, register_decoded, response_of, service_error,
}
use deploy_os.Devices.Handler.Ownership.{IsCreated, register_device-IsCreated}
use deploy_os.Connection.Client.{DeviceInfo, auth_envelope, protocol_version}
use deploy_os.Connection.Auth.{authenticate, IsAuthentic, authenticate-IsAuthentic}
use deploy_os.Proto.{get_device_token, get_id}

-- The fields that Handler.Register copies from the request.
unfoldable pub input_of : DeviceRegisterRequest → RegisterInput
input_of r = record {
  device_id = r.device_id;
  hostname = r.hostname;
  operating_system = r.operating_system;
  architecture = r.architecture;
  cpu_cores = r.cpu_cores;
  memory_bytes = r.memory_bytes;
  deployos_version = r.deployos_version;
}

-- encoding/json on the control plane's side. The error of an encoding of a response is ignored, with nothing written.
pub record ServerJson : Type 0 where
  pub decode_request : String → Option DeviceRegisterRequest
  pub encode_response : RegisterResponse → Result String
  pub encode_error : String → String

-- encoding/json decodes what it encoded, and no response from an empty body.
pub record IsJson (json : Json) (server : ServerJson) : Type 0 where
  pub request :
      (r : DeviceRegisterRequest) (body : String)
      → json.encode_request r ≡ ok body
      → server.decode_request body ≡ some r
  pub response :
      (r : RegisterResponse) (body : String)
      → server.encode_response r ≡ ok body
      → json.decode_response body ≡ ok r
  pub nothing : (r : RegisterResponse) → ¬ (json.decode_response "" ≡ ok r)

abbrev pub written : Result String → String
written (err e) = ""
written (ok body) = body

-- The status and the body on the wire: writeJSON and writeError.
unfoldable pub http_reply : ServerJson → Reply RegisterResponse → HttpResponse
http_reply server (success status r) = record {
  status = status;
  body = written (server.encode_response r);
}
http_reply server (failure status message) = record {
  status = status;
  body = server.encode_error message;
}

unfoldable pub input_from : Option DeviceRegisterRequest → Option RegisterInput
unfolding input_of
input_from none = none
input_from (some r) = some (input_of r)

-- POST /api/v1/devices/register on the control plane.
unfoldable pub serve_register :
    ServerJson
    → (Device → Result (String × ℕ))
    → (String → Result (Unit {0}))
    → (String → Result User)
    → HttpRequest
    → Database
    → Database × HttpResponse
unfolding http_reply input_from
serve_register server issuer parse_uuid directory r db =
    let done =
      register_device repository issuer parse_uuid directory r.authorization
        (input_from (server.decode_request r.body)) db in
    (done.0, http_reply server done.1)

-- What a registration that the agent logs went through on the control plane.
pub record IsServed (issuer : Device → Result (String × ℕ))
    (parse_uuid : String → Result (Unit {0})) (directory : String → Result User)
    (access_token : String) (req : DeviceRegisterRequest) (db : Database) (resp : RegisterResponse)
    : Type 0 where
  pub after : Database
  pub created :
      IsCreated issuer parse_uuid directory
        (concat ("Bearer " ∷ access_token ∷ []))
        (input_of req)
        db
        after
        resp
