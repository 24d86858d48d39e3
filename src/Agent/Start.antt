-- ===== src/Agent/Start.antt =====
-- internal/agent/agent.go, Agent.Run: the start of the agent, up to the connection and the HTTP server, which the errgroup then runs.
pub mod Main
use deploy_os.Base.{
  ℕ, String, ◌≡◌, refl, sym, ap, ◌∙◌, Bool, true, false, Option, none, some, [], if◌then◌else◌,
}
use deploy_os.Go.Errors.{GoError, other, wrap, Result, ok, err, ok_inj}
use deploy_os.Agent.Commands.{SystemInfo}
use deploy_os.Agent.Identity.{
  Disk, load_token, load_or_create_device_id, IsTrimmed, read_trimmed_file, device_id_file_name,
  load_or_create_device_id-read, read-load_or_create_device_id, persist_device_token,
}
use deploy_os.Agent.Identity.Files.{
  persist_device_token-read, persist_device_token-failed, load_token-load_or_create_device_id,
}
use deploy_os.Agent.Registrar.{
  registered, Json, HttpRequest, HttpResponse, Registration, register, register_with_control_plane,
  register_request_of, after_register, persisted,
}
use deploy_os.Devices.Handler.{RegisterResponse}
use deploy_os.Connection.Client.{DeviceInfo, Network, connect_once}
use deploy_os.Monitoring
use deploy_os.Go.Map.{insert}

-- agent.Config
pub record AgentConfig : Type 0 where
  pub api_base_url : String
  pub user_access_token : String
  pub version : String

device_info : String → SystemInfo → String → DeviceInfo
device_info id info version = record {
  id = id;
  hostname = info.hostname;
  operating_system = info.operating_system;
  architecture = info.architecture;
  deployos_version = version;
}

module _ (json : Json) (call : HttpRequest → Result HttpResponse) (cfg : AgentConfig) where
  identified : String → Result SystemInfo → Disk → Disk × Result (DeviceInfo × Registration)
  unfolding device_info
  identified id (err e) disk = (disk, err (wrap "collecting system info: " e ""))
  identified id (ok info) disk =
      let done =
        register_with_control_plane json call cfg.api_base_url cfg.user_access_token cfg.version id
          info disk in
      (done.0, ok (device_info id info cfg.version, done.1))

  loaded : Result SystemInfo → Disk × Result String → Disk × Result (DeviceInfo × Registration)
  unfolding identified
  loaded info (disk, err e) = (disk, err (wrap "loading device identity: " e ""))
  loaded info (disk, ok id) = identified id info disk

  -- Run, up to the errgroup: the device that the connection authenticates as, and what was logged of the registration.
  unfoldable pub start :
      String → Result SystemInfo → Disk → Disk × Result (DeviceInfo × Registration)
  unfolding loaded
  start fresh info disk = loaded info (load_or_create_device_id fresh disk)

  after_register-read :
      (r : Result RegisterResponse) (disk : Disk)
      → read_trimmed_file device_id_file_name (after_register r disk).0
        ≡ read_trimmed_file device_id_file_name disk
  unfolding after_register
  after_register-read (err e) disk = refl
  after_register-read (ok resp) disk =
      persisted-read resp (persist_device_token resp.token disk)
      ∙ persist_device_token-read resp.token disk
    where
      persisted-read :
          (resp : RegisterResponse) (x : Disk × Result (Unit {0}))
          → read_trimmed_file device_id_file_name (persisted resp x).0
            ≡ read_trimmed_file device_id_file_name x.0
      persisted-read resp (d, err e) = refl
      persisted-read resp (d, ok tt) = refl

  identified-id :
      (id : String) (info : Result SystemInfo) (disk after : Disk) (device : DeviceInfo)
      (log : Registration)
      → read_trimmed_file device_id_file_name disk ≡ ok (some id)
      → identified id info disk ≡ (after, ok (device, log))
      → (device.id ≡ id) × (read_trimmed_file device_id_file_name after ≡ ok (some id))
  unfolding identified device_info register_with_control_plane
  identified-id id (err e) disk after device log r h =
      let bad = ap (λ (y : Disk × Result (DeviceInfo × Registration)). y.1) h in cc
  identified-id id (ok info) disk after device log r h =
      let state = ap (λ (y : Disk × Result (DeviceInfo × Registration)). y.0) h in
      let both = ok_inj (ap (λ (y : Disk × Result (DeviceInfo × Registration)). y.1) h) in
      (
        sym (ap (λ (y : DeviceInfo × Registration). y.0.id) both),
        ap (λ d. read_trimmed_file device_id_file_name d) (sym state)
            ∙ after_register-read
                (register json call cfg.api_base_url cfg.user_access_token
                  (register_request_of id info cfg.version))
                disk
            ∙ r,
      )

  -- Whatever the control plane answered to the registration, once the agent has started, a later
  -- load of the device id gives the id that it started with and leaves the disk as it is, where an
  -- id that is created is not empty and has no white space at its ends.
  pub start-again :
      (fresh later : String) (info : Result SystemInfo) (disk after : Disk) (device : DeviceInfo)
      (log : Registration)
      → IsTrimmed fresh
      → start fresh info disk ≡ (after, ok (device, log))
      → load_or_create_device_id later after ≡ (after, ok device.id)
  unfolding start
  start-again fresh later info disk after device log t h =
      by (load_or_create_device_id fresh disk) refl h
    where
      by :
          (x : Disk × Result String)
          → load_or_create_device_id fresh disk ≡ x
          → loaded info x ≡ (after, ok (device, log))
          → load_or_create_device_id later after ≡ (after, ok device.id)
      by (d, err e) q g =
          let bad =
            ap (λ (y : Disk × Result (DeviceInfo × Registration)). y.1) (unfold loaded in g) in
          cc
      by (d, ok id) q g =
          let (same, kept) =
            identified-id id info d after device log
              (load_or_create_device_id-read fresh id disk d t q) (unfold loaded in g) in
          read-load_or_create_device_id later id after kept ∙ ap (λ i. (after, ok i)) (sym same)

  persisted-unchanged :
      (sent : RegisterResponse) (disk : Disk) (x : Disk × Result (Unit {0}))
      → persist_device_token sent.token disk ≡ x
      → ((resp : RegisterResponse) → ¬ ((persisted sent x).1 ≡ registered resp))
      → (persisted sent x).0 ≡ disk
  unfolding persisted
  persisted-unchanged sent disk (d, err e) q n = persist_device_token-failed sent.token disk d e q
  persisted-unchanged sent disk (d, ok tt) q n = absurd (n sent refl)

  -- A registration that is not logged as done left the disk as it was.
  after_register-unchanged :
      (r : Result RegisterResponse) (disk : Disk)
      → ((resp : RegisterResponse) → ¬ ((after_register r disk).1 ≡ registered resp))
      → (after_register r disk).0 ≡ disk
  unfolding after_register
  after_register-unchanged (err e) disk n = refl
  after_register-unchanged (ok sent) disk n =
      persisted-unchanged sent disk (persist_device_token sent.token disk) refl n

  identified-unchanged :
      (id : String) (info : Result SystemInfo) (disk after : Disk) (device : DeviceInfo)
      (log : Registration)
      → identified id info disk ≡ (after, ok (device, log))
      → ((resp : RegisterResponse) → ¬ (log ≡ registered resp))
      → after ≡ disk
  unfolding identified register_with_control_plane
  identified-unchanged id (err e) disk after device log h n =
      let bad = ap (λ (y : Disk × Result (DeviceInfo × Registration)). y.1) h in cc
  identified-unchanged id (ok info) disk after device log h n =
      let both = ok_inj (ap (λ (y : Disk × Result (DeviceInfo × Registration)). y.1) h) in
      let same = ap (λ (y : DeviceInfo × Registration). y.1) both in
      sym (ap (λ (y : Disk × Result (DeviceInfo × Registration)). y.0) h)
      ∙ after_register-unchanged
          (register json call cfg.api_base_url cfg.user_access_token
            (register_request_of id info cfg.version))
          disk (λ resp q. n resp (sym same ∙ q))

  loaded-unchanged :
      (info : Result SystemInfo) (x : Disk × Result String) (after : Disk) (device : DeviceInfo)
      (log : Registration)
      → loaded info x ≡ (after, ok (device, log))
      → ((resp : RegisterResponse) → ¬ (log ≡ registered resp))
      → after ≡ x.0
  unfolding loaded
  loaded-unchanged info (d, err e) after device log h n =
      let bad = ap (λ (y : Disk × Result (DeviceInfo × Registration)). y.1) h in cc
  loaded-unchanged info (d, ok id) after device log h n =
      identified-unchanged id info d after device log h n

  -- Where the token source had no token when the agent started and the registration of the start
  -- is not logged as done, every attempt to connect, on the disk that the start left, fails with
  -- the error of the token source and sends nothing.
  pub start-connect_once :
      (fresh : String) (info : Result SystemInfo) (disk after : Disk) (device : DeviceInfo)
      (log : Registration) (e : GoError) (has_handler : Bool) (net : Network)
      → load_token disk ≡ err e
      → start fresh info disk ≡ (after, ok (device, log))
      → ((resp : RegisterResponse) → ¬ (log ≡ registered resp))
      → connect_once has_handler device (load_token after) net ≡ record {
        authenticated = false;
        error = some (wrap "loading device token: " e "");
        request = none;
        commands = [];
      }
  unfolding start connect_once
  start-connect_once fresh info disk after device log e has_handler net no_token h n =
      let still : load_token after ≡ err e =
        ap load_token
          (loaded-unchanged info (load_or_create_device_id fresh disk) after device log h n)
        ∙ load_token-load_or_create_device_id fresh disk
        ∙ no_token in
      rw (still, connect_once)

-- The check "control_plane_connection" of Run, on what Client.Connected reports
connection_check : Bool → Option GoError
connection_check true = none
connection_check false = some (other "not connected to control plane")

-- The registry of Run, and its answer on GET /healthz
unfoldable pub agent_health : Bool → ℕ × Monitoring.Status
unfolding connection_check Monitoring.health Monitoring.register insert
agent_health connected =
    Monitoring.health (Monitoring.register "control_plane_connection" connection_check []) connected

pub agent_health_lem :
    (connected : Bool)
    → agent_health connected
      ≡ (if connected then (200, Monitoring.status_ok) else (503, Monitoring.status_degraded))
unfolding agent_health
agent_health_lem true = refl
agent_health_lem false = refl
