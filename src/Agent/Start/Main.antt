-- ===== src/Agent/Start/Main.antt =====
-- cmd/agent/main.go and internal/agent/sysinfo.go: the agent's command, up to the errgroup of Agent.Run.
use deploy_os.Base.{ℕ, String, ◌≡◌, refl, sym, ap, ◌∙◌, ◌↔◌}
use deploy_os.Go.Errors.{wrap, Result, ok, err, ◌>>=◌, map_error, map_error-ok, bind-ok, ok_inj}
use deploy_os.Go.Integer.{ℤ}
use deploy_os.Config.{Config, Loader, load, IsLoaded, load-IsLoaded}
use deploy_os.ControlPlane.{no_options}
use deploy_os.Connection.Client.{DeviceInfo}
use deploy_os.Agent.Commands.{SystemInfo}
use deploy_os.Agent.Identity.{Disk, load_or_create_device_id}
use deploy_os.Agent.Registrar.{
  Json, HttpRequest, HttpResponse, Registration, register_with_control_plane,
}
use deploy_os.Agent.Start.{AgentConfig, start, loaded, identified, device_info}

-- What the operating system and the library that reads the memory report.
pub record Machine : Type 0 where
  pub hostname : Result String
  -- mem.VirtualMemory's Total
  pub memory : Result ℕ
  pub operating_system : String
  pub architecture : String
  pub cpu_cores : ℤ

-- collectSystemInfo
unfoldable pub collect_system_info : Machine → Result SystemInfo
collect_system_info m = map_error (λ e. wrap "reading hostname: " e "") m.hostname >>= λ hostname.
    map_error (λ e. wrap "reading memory info: " e "") m.memory >>= λ memory. ok (record {
      hostname = hostname;
      operating_system = m.operating_system;
      architecture = m.architecture;
      cpu_cores = m.cpu_cores;
      memory_bytes = memory;
    })

-- The agent.Config that run builds, with agent.Version
unfoldable pub agent_config : Config → String → AgentConfig
agent_config c version = record {
  api_base_url = c.agent.api_base_url;
  user_access_token = c.agent.user_access_token;
  version = version;
}

-- The system information was read.
collected :
    (m : Machine) (info : SystemInfo)
    → collect_system_info m ≡ ok info
    → (m.hostname ≡ ok info.hostname)
      × (m.memory ≡ ok info.memory_bytes)
      × (info.operating_system ≡ m.operating_system)
      × (info.architecture ≡ m.architecture)
unfolding collect_system_info
collected m info h =
    let (hostname, h1, h2) =
      bind-ok (map_error (λ e. wrap "reading hostname: " e "") m.hostname) _ info h in
    let (memory, h3, h4) =
      bind-ok (map_error (λ e. wrap "reading memory info: " e "") m.memory) _ info h2 in
    let q = ok_inj h4 in
    (
      map_error-ok _ m.hostname hostname h1 ∙ ap (λ (x : SystemInfo). ok x.hostname) q,
      map_error-ok _ m.memory memory h3 ∙ ap (λ (x : SystemInfo). ok x.memory_bytes) q,
      ap (λ (x : SystemInfo). x.operating_system) (sym q),
      ap (λ (x : SystemInfo). x.architecture) (sym q),
    )

module _ (json : Json) (call : HttpRequest → Result HttpResponse) (cfg : AgentConfig) where
  -- What the start of the agent went through.
  identified-ok :
      (id : String) (r : Result SystemInfo) (disk after : Disk) (device : DeviceInfo)
      (log : Registration)
      → identified json call cfg id r disk ≡ (after, ok (device, log))
      → (info : SystemInfo) × (r ≡ ok info) × (device ≡ device_info id info cfg.version)
  unfolding identified
  identified-ok id (err e) disk after device log h =
      let bad = ap (λ (y : Disk × Result (DeviceInfo × Registration)). y.1) h in cc
  identified-ok id (ok info) disk after device log h =
      let both = ok_inj (ap (λ (y : Disk × Result (DeviceInfo × Registration)). y.1) h) in
      (info, refl, sym (ap (λ (y : DeviceInfo × Registration). y.0) both))

  loaded-ok :
      (r : Result SystemInfo) (x : Disk × Result String) (after : Disk) (device : DeviceInfo)
      (log : Registration)
      → loaded json call cfg r x ≡ (after, ok (device, log))
      → (disk : Disk) × (id : String) × (info : SystemInfo) × (x ≡ (disk, ok id))
        × (r ≡ ok info)
        × (device ≡ device_info id info cfg.version)
  unfolding loaded
  loaded-ok r (d, err e) after device log h =
      let bad = ap (λ (y : Disk × Result (DeviceInfo × Registration)). y.1) h in cc
  loaded-ok r (d, ok id) after device log h =
      let (info, q, same) = identified-ok id r d after device log h in (d, id, info, refl, q, same)

module _ (l : Loader) (json : Json) (call : HttpRequest → Result HttpResponse)
    (version fresh : String) (m : Machine) (disk_at : String → Disk) where
  -- run, up to the errgroup: the start of the agent over the directory that the configuration names
  unfoldable pub run : Result (Disk × Result (DeviceInfo × Registration))
  unfolding start agent_config collect_system_info
  run = load l no_options >>= λ c. ok (
      start json call (agent_config c version) fresh (collect_system_info m)
        (disk_at c.agent.data_dir))

  -- The agent comes to its errgroup as the device.
  abbrev pub IsStarted : DeviceInfo → Type 0
  IsStarted device = (after : Disk) × (log : Registration) × (run ≡ ok (after, ok (device, log)))

  -- What the start needs, and the device that it gives.
  pub record IsReady (device : DeviceInfo) : Type 0 where
    pub config : Config
    pub configured : IsLoaded l no_options config
    pub disk : Disk
    pub identity :
        load_or_create_device_id fresh (disk_at config.agent.data_dir) ≡ (disk, ok device.id)
    pub memory : ℕ
    pub named : m.hostname ≡ ok device.hostname
    pub measured : m.memory ≡ ok memory
    pub operating_system : device.operating_system ≡ m.operating_system
    pub architecture : device.architecture ≡ m.architecture
    pub reported : device.deployos_version ≡ version

  IsStarted-IsReady : (device : DeviceInfo) → IsStarted device → IsReady device
  unfolding run start device_info agent_config
  IsStarted-IsReady device (after, log, h) =
      let (c, h1, h2) = bind-ok (load l no_options) _ (after, ok (device, log)) h in
      let (disk, id, info, identity, read, same) =
        loaded-ok json call (agent_config c version) (collect_system_info m)
          (load_or_create_device_id fresh (disk_at c.agent.data_dir)) after device log
          (ok_inj h2) in
      let (named, measured, system, architecture) = collected m info read in
      record {
        config = c;
        configured = (load-IsLoaded l no_options c).0 h1;
        disk = disk;
        identity = identity ∙ ap (λ (x : DeviceInfo). (disk, ok x.id)) (sym same);
        memory = info.memory_bytes;
        named = named ∙ ap (λ (x : DeviceInfo). ok x.hostname) (sym same);
        measured = measured;
        operating_system = ap (λ (x : DeviceInfo). x.operating_system) same ∙ system;
        architecture = ap (λ (x : DeviceInfo). x.architecture) same ∙ architecture;
        reported = ap (λ (x : DeviceInfo). x.deployos_version) same;
      }

  IsReady-IsStarted : (device : DeviceInfo) → IsReady device → IsStarted device
  unfolding run start loaded identified collect_system_info agent_config device_info
  IsReady-IsStarted device r =
      let info : SystemInfo = record {
        hostname = device.hostname;
        operating_system = m.operating_system;
        architecture = m.architecture;
        cpu_cores = m.cpu_cores;
        memory_bytes = r.memory;
      } in
      let done =
        register_with_control_plane json call r.config.agent.api_base_url
          r.config.agent.user_access_token version device.id info r.disk in
      let same : device_info device.id info version ≡ device =
        cc (r.operating_system, r.architecture, r.reported) in
      (
        done.0,
        done.1,
        rw ((load-IsLoaded l no_options r.config).1 r.configured, r.named, r.measured, r.identity)
            (ap (λ d. ok (done.0, ok (d, done.1))) same),
      )

  -- Whatever the control plane answers to the registration, the agent's command comes to its
  -- errgroup as a device exactly when its settings load, the device id is on disk or can be made
  -- there, and the name and the memory of the machine can be read; the device then has this id,
  -- this name, the machine's system and architecture and the build's version.
  pub run-IsReady : (device : DeviceInfo) → IsStarted device ↔ IsReady device
  run-IsReady device = (IsStarted-IsReady device, IsReady-IsStarted device)
