-- ===== src/Devices/Handler.antt =====
-- internal/devices/handler.go: the HTTP handlers on the service. The authenticator, the JSON decoder's answer, the
-- registered state of connections and the repository are parameters.
pub mod Ownership
use deploy_os.Base.{
  ℕ, String, ◌⊎◌, inl, inr, Bool, true, false, Option, none, some, List, map, if◌then◌else◌,
}
use deploy_os.Go.Errors.{GoError, error_text, is, Result, ok, err}
use deploy_os.Auth.{User, Reply, success, failure, caller, IsCaller}
use deploy_os.Devices.{Device, RegisterInput, err_invalid_input, err_owned_by_another_user}
use deploy_os.Devices.Service.{Repository, RegisterResult, register, list}
use deploy_os.Go.Integer.{ℤ}

-- protocol.DeviceRegisterResponse
pub record RegisterResponse : Type 0 where
  pub device_id : String
  pub token : String
  pub expires_at : ℕ

-- api.Device
pub record ListedDevice : Type 0 where
  pub id : String
  pub hostname : String
  pub operating_system : String
  pub architecture : String
  pub status : String
  pub created_at : ℕ

-- Handler.writeServiceError
unfoldable pub service_error {ℓ} : {A : Type ℓ} → GoError → Reply A
unfolding error_text
service_error e =
    if is e err_invalid_input
    then failure 400 (error_text e)
    else if is e err_owned_by_another_user
    then failure 409 "device is already registered to another account"
    else failure 500 "internal error"

unfoldable pub response_of : Result RegisterResult → Reply RegisterResponse
unfolding service_error
response_of (err e) = service_error e
response_of (ok r) =
    success 201 (record { device_id = r.device.id; token = r.token; expires_at = r.expires_at })

abbrev pub connection_status : Bool → String
connection_status true = "connected"
connection_status false = "disconnected"

unfoldable pub listed : (String → Bool) → Device → ListedDevice
listed is_connected d = record {
  id = d.id;
  hostname = d.hostname;
  operating_system = d.operating_system;
  architecture = d.architecture;
  status = connection_status (is_connected d.id);
  created_at = d.created_at;
}

unfoldable pub listing : (String → Bool) → Result (List Device) → Reply (List ListedDevice)
unfolding service_error listed
listing is_connected (err e) = service_error e
listing is_connected (ok devices) = success 200 (map (listed is_connected) devices)

module _ {State : Type 0} where
  unfoldable pub register_decoded :
      Repository State
      → (Device → Result (String × ℕ))
      → (String → Result (Unit {0}))
      → User
      → Option RegisterInput
      → State
      → State × Reply RegisterResponse
  unfolding register response_of
  register_decoded repo issue parse_uuid user none s = (s, failure 400 "invalid request body")
  register_decoded repo issue parse_uuid user (some i) s =
      let done = register repo issue parse_uuid user.id i s in (done.0, response_of done.1)

  unfoldable pub register_as :
      Repository State
      → (Device → Result (String × ℕ))
      → (String → Result (Unit {0}))
      → String ⊎ User
      → Option RegisterInput
      → State
      → State × Reply RegisterResponse
  unfolding register_decoded
  register_as repo issue parse_uuid (inl m) body s = (s, failure 401 m)
  register_as repo issue parse_uuid (inr user) body s =
      register_decoded repo issue parse_uuid user body s

  -- Handler.Register
  unfoldable pub register_device :
      Repository State
      → (Device → Result (String × ℕ))
      → (String → Result (Unit {0}))
      → (String → Result User)
      → String
      → Option RegisterInput
      → State
      → State × Reply RegisterResponse
  unfolding caller register_as
  register_device repo issue parse_uuid authenticate header body s =
      register_as repo issue parse_uuid (caller authenticate header) body s

  unfoldable pub list_as :
      Repository State → (String → Bool) → String ⊎ User → State → Reply (List ListedDevice)
  unfolding list listing
  list_as repo is_connected (inl m) s = failure 401 m
  list_as repo is_connected (inr user) s = listing is_connected (list repo user.id s)

  -- Handler.List
  unfoldable pub list_devices :
      Repository State
      → (String → Bool)
      → (String → Result User)
      → String
      → State
      → Reply (List ListedDevice)
  unfolding caller list_as
  list_devices repo is_connected authenticate header s =
      list_as repo is_connected (caller authenticate header) s
