-- ===== src/Devices.antt =====
-- internal/devices/device.go, and RegisterInput of internal/devices/service.go.
pub mod Service
pub mod Table
pub mod Token
pub mod Handler
use deploy_os.Base.{ℕ, String, ◌≡◌, ◌↔◌, true, false, not, arith, nat_eq, ◌==◌, ==_false}
use deploy_os.Go.Errors.{
  and_then-ok, fail_if-ok, fail_if_empty-ok, map_error-ok, Sentinel, GoError, other, wrap, is,
  Result, ok, ◌>>◌, fail_if, map_error,
}
use deploy_os.Types.{validate_agent_id}
use deploy_os.Go.Integer.{ℤ, is_positive}

abbrev pub err_invalid_input : Sentinel
err_invalid_input = record {
  name = "devices.ErrInvalidInput";
  text = "invalid device registration input";
}

abbrev pub err_owned_by_another_user : Sentinel
err_owned_by_another_user = record {
  name = "devices.ErrOwnedByAnotherUser";
  text = "device is registered to another user";
}

abbrev pub status_registered : String
status_registered = "registered"

-- Times are seconds.
pub record Device : Type 0 where
  pub id : String
  pub user_id : String
  pub hostname : String
  pub operating_system : String
  pub architecture : String
  pub cpu_cores : ℤ
  pub memory_bytes : ℕ
  pub deployos_version : String
  pub status : String
  pub created_at : ℕ
  pub updated_at : ℕ

pub record RegisterInput : Type 0 where
  pub device_id : String
  pub hostname : String
  pub operating_system : String
  pub architecture : String
  pub cpu_cores : ℤ
  pub memory_bytes : ℕ
  pub deployos_version : String

abbrev pub prefixed : String → GoError → GoError
prefixed before e = wrap before e ""

-- RegisterInput.Validate. The library's uuid.Parse is a parameter.
unfoldable pub validate_input : (String → Result (Unit {0})) → RegisterInput → Result (Unit {0})
unfolding validate_agent_id
validate_input parse_uuid i =
    map_error (prefixed "device_id: ") (validate_agent_id i.device_id)
    >> map_error (prefixed "device_id: must be a UUID: ") (parse_uuid i.device_id)
    >> fail_if (i.hostname == "") (other "hostname must not be empty")
    >> fail_if (i.operating_system == "") (other "operating_system must not be empty")
    >> fail_if (i.architecture == "") (other "architecture must not be empty")
    >> fail_if (not (is_positive i.cpu_cores)) (other "cpu_cores must be positive")
    >> fail_if (nat_eq i.memory_bytes 0) (other "memory_bytes must be positive")
    >> fail_if (i.deployos_version == "") (other "deployos_version must not be empty")

-- Every field is set, and the id is a UUID.
pub record IsComplete (parse_uuid : String → Result (Unit {0})) (i : RegisterInput) : Type 0 where
  pub named : ¬ (i.device_id ≡ "")
  pub uuid : parse_uuid i.device_id ≡ ok tt
  pub host : ¬ (i.hostname ≡ "")
  pub system : ¬ (i.operating_system ≡ "")
  pub machine : ¬ (i.architecture ≡ "")
  pub cores : is_positive i.cpu_cores ≡ true
  pub memory : ¬ (i.memory_bytes ≡ 0)
  pub version : ¬ (i.deployos_version ≡ "")

valid-IsComplete :
    (parse_uuid : String → Result (Unit {0})) (i : RegisterInput)
    → validate_input parse_uuid i ≡ ok tt
    → IsComplete parse_uuid i
unfolding validate_input validate_agent_id
valid-IsComplete parse_uuid i h =
    let (h7, v) = and_then-ok _ _ tt h in
    let (h6, m) = and_then-ok _ _ tt h7 in
    let (h5, c) = and_then-ok _ _ tt h6 in
    let (h4, a) = and_then-ok _ _ tt h5 in
    let (h3, o) = and_then-ok _ _ tt h4 in
    let (h2, n) = and_then-ok _ _ tt h3 in
    let (h1, p) = and_then-ok _ _ tt h2 in
    record {
      named = fail_if_empty-ok i.device_id _ (map_error-ok _ _ tt h1);
      uuid = map_error-ok _ _ tt p;
      host = fail_if_empty-ok i.hostname _ n;
      system = fail_if_empty-ok i.operating_system _ o;
      machine = fail_if_empty-ok i.architecture _ a;
      cores = ground (arith, fail_if-ok (not (is_positive i.cpu_cores)) _ c);
      memory = λ q. ground (arith, fail_if-ok (nat_eq i.memory_bytes 0) _ m);
      version = fail_if_empty-ok i.deployos_version _ v;
    }

IsComplete-valid :
    (parse_uuid : String → Result (Unit {0})) (i : RegisterInput)
    → IsComplete parse_uuid i
    → validate_input parse_uuid i ≡ ok tt
unfolding validate_input validate_agent_id
IsComplete-valid parse_uuid i c = rw (
  ==_false i.device_id "" c.named,
  c.uuid,
  ==_false i.hostname "" c.host,
  ==_false i.operating_system "" c.system,
  ==_false i.architecture "" c.machine,
  c.cores,
  not_zero i.memory_bytes c.memory,
  ==_false i.deployos_version "" c.version,
)
  where
    not_zero : (n : ℕ) → ¬ (n ≡ 0) → nat_eq n 0 ≡ false
    not_zero n h = ground arith

-- RegisterInput.Validate returns no error exactly when no text is empty, the device id is a UUID
-- to the parser, and the numbers of cores and of bytes are positive.
pub validate_input-IsComplete :
    (parse_uuid : String → Result (Unit {0})) (i : RegisterInput)
    → (validate_input parse_uuid i ≡ ok tt) ↔ IsComplete parse_uuid i
validate_input-IsComplete parse_uuid i =
    (valid-IsComplete parse_uuid i, IsComplete-valid parse_uuid i)
