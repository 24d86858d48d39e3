-- ===== src/Agent/Registrar.antt =====
-- internal/agent/registrar.go, and Agent.registerWithControlPlane of internal/agent/agent.go. The HTTP client and encoding/json
-- are parameters; the request to the control plane always builds, and a timeout is an error of the client.
use deploy_os.Base.{
  ℕ, String, concat, ◌≡◌, ◌↔◌, inl, inr, [], ◌∷◌, arith, nat_eq, ◌==◌, if◌then◌else◌, Bool-cases,
}
use deploy_os.Go.Errors.{
  GoError, other, wrap, Result, ok, err, ◌>>=◌, map_error, map_error-ok, bind-ok,
}
use deploy_os.Go.Text.{trim_suffix_slash}
use deploy_os.Go.Integer.{ℤ}
use deploy_os.Devices.Handler.{RegisterResponse}
use deploy_os.Agent.Commands.{SystemInfo}
use deploy_os.Agent.Identity.{Disk, persist_device_token}

-- protocol.DeviceRegisterRequest
pub record DeviceRegisterRequest : Type 0 where
  pub device_id : String
  pub hostname : String
  pub operating_system : String
  pub architecture : String
  pub cpu_cores : ℤ
  pub memory_bytes : ℕ
  pub deployos_version : String

pub record HttpRequest : Type 0 where
  pub method : String
  pub url : String
  pub content_type : String
  pub authorization : String
  pub body : String

pub record HttpResponse : Type 0 where
  pub status : ℕ
  pub body : String

-- encoding/json, for the bodies of the registration. `decode_error` gives the field error of the body, empty where it does not decode;
-- `itoa` is the verb %d.
pub record Json : Type 0 where
  pub encode_request : DeviceRegisterRequest → Result String
  pub decode_response : String → Result RegisterResponse
  pub decode_error : String → String
  pub itoa : ℕ → String

-- newRegistrar: the base URL that it keeps
unfoldable pub new_registrar : String → String
unfolding trim_suffix_slash
new_registrar base_url = trim_suffix_slash base_url

unfoldable pub register_request : String → String → String → HttpRequest
register_request base_url access_token body = record {
  method = "POST";
  url = concat (base_url ∷ "/api/v1/devices/register" ∷ []);
  content_type = "application/json";
  authorization = concat ("Bearer " ∷ access_token ∷ []);
  body = body;
}

rejection : Json → ℕ → String → GoError
rejection json status message =
    if message == ""
    then other (concat ("control plane rejected registration: status " ∷ json.itoa status ∷ []))
    else other
        (concat ("control plane rejected registration (" ∷ json.itoa status ∷ "): " ∷ message ∷ []))

unfoldable pub read_response : Json → HttpResponse → Result RegisterResponse
unfolding rejection
read_response json r =
    if nat_eq r.status 201
    then map_error (λ e. wrap "decoding registration response: " e "") (json.decode_response r.body)
    else err (rejection json r.status (json.decode_error r.body))

abbrev prefixed_by : String → GoError → GoError
prefixed_by before e = wrap before e ""

-- registrar.register
unfoldable pub register :
    Json
    → (HttpRequest → Result HttpResponse)
    → String
    → String
    → DeviceRegisterRequest
    → Result RegisterResponse
unfolding register_request read_response
register json call base_url access_token req =
    map_error (λ e. wrap "encoding registration request: " e "") (json.encode_request req)
    >>= λ body.
        map_error (prefixed_by "calling control plane: ")
          (call (register_request base_url access_token body))
        >>= read_response json

-- What the agent logs of a registration.
pub data Registration : Type 0 where
  not_registered not_persisted : GoError → Registration
  registered : RegisterResponse → Registration

unfoldable pub register_request_of : String → SystemInfo → String → DeviceRegisterRequest
register_request_of device_id info version = record {
  device_id = device_id;
  hostname = info.hostname;
  operating_system = info.operating_system;
  architecture = info.architecture;
  cpu_cores = info.cpu_cores;
  memory_bytes = info.memory_bytes;
  deployos_version = version;
}

unfoldable pub persisted : RegisterResponse → Disk × Result (Unit {0}) → Disk × Registration
persisted resp (disk, err e) = (disk, not_persisted e)
persisted resp (disk, ok tt) = (disk, registered resp)

unfoldable pub after_register : Result RegisterResponse → Disk → Disk × Registration
unfolding persisted persist_device_token
after_register (err e) disk = (disk, not_registered e)
after_register (ok resp) disk = persisted resp (persist_device_token resp.token disk)

-- Agent.registerWithControlPlane
unfoldable pub register_with_control_plane :
    Json
    → (HttpRequest → Result HttpResponse)
    → String
    → String
    → String
    → String
    → SystemInfo
    → Disk
    → Disk × Registration
unfolding register register_request_of after_register
register_with_control_plane json call base_url access_token version device_id info disk =
    after_register
      (register json call base_url access_token (register_request_of device_id info version)) disk

-- The answer was a 201 that decoded.
pub record IsAccepted (json : Json) (call : HttpRequest → Result HttpResponse)
    (base_url access_token : String) (req : DeviceRegisterRequest) (resp : RegisterResponse)
    : Type 0 where
  pub body : String
  pub response : HttpResponse
  pub encoded : json.encode_request req ≡ ok body
  pub answered : call (register_request base_url access_token body) ≡ ok response
  pub created : response.status ≡ 201
  pub decoded : json.decode_response response.body ≡ ok resp

read_response-ok :
    (json : Json) (r : HttpResponse) (resp : RegisterResponse)
    → read_response json r ≡ ok resp
    → (r.status ≡ 201) × (json.decode_response r.body ≡ ok resp)
unfolding read_response
read_response-ok json r resp h = elim (Bool-cases (nat_eq r.status 201)) [
  | inl e ↦ (ground arith, map_error-ok _ _ resp (rw (e, read_response) at h))
  | inr e ↦ let bad = rw (e, read_response) at h in cc
]

accepted :
    (json : Json) (call : HttpRequest → Result HttpResponse) (base_url access_token : String)
    (req : DeviceRegisterRequest) (resp : RegisterResponse)
    → register json call base_url access_token req ≡ ok resp
    → IsAccepted json call base_url access_token req resp
unfolding register
accepted json call base_url access_token req resp h =
    let (body, encoded, h2) =
      bind-ok _
        (λ body.
          map_error (prefixed_by "calling control plane: ")
            (call (register_request base_url access_token body))
          >>= read_response json)
        resp h in
    let (r, called, read) = bind-ok _ (read_response json) resp h2 in
    let (status, decoded) = read_response-ok json r resp read in
    record {
      body = body;
      response = r;
      encoded = map_error-ok _ _ body encoded;
      answered = map_error-ok _ _ r called;
      created = status;
      decoded = decoded;
    }

IsAccepted-register :
    (json : Json) (call : HttpRequest → Result HttpResponse) (base_url access_token : String)
    (req : DeviceRegisterRequest) (resp : RegisterResponse)
    → IsAccepted json call base_url access_token req resp
    → register json call base_url access_token req ≡ ok resp
unfolding register read_response
IsAccepted-register json call base_url access_token req resp a =
    rw (a.encoded, a.answered, a.created, a.decoded)

-- A registration succeeds with a response exactly when the request encodes, the control plane
-- answers it with status 201, and its body decodes to that response.
pub register-IsAccepted :
    (json : Json) (call : HttpRequest → Result HttpResponse) (base_url access_token : String)
    (req : DeviceRegisterRequest) (resp : RegisterResponse)
    → (register json call base_url access_token req ≡ ok resp)
      ↔ IsAccepted json call base_url access_token req resp
register-IsAccepted json call base_url access_token req resp = (
  accepted json call base_url access_token req resp,
  IsAccepted-register json call base_url access_token req resp,
)
