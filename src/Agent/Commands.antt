-- ===== src/Agent/Commands.antt =====
-- internal/agent/handlers.go: the executors of the agent and its dispatcher; containers.Runtime of internal/containers/runtime.go. The system information, the
-- container runtime, json.Marshal and strconv are parameters.
pub mod Inspect
use deploy_os.Base.{
  ℕ, String, ◌≡◌, refl, inl, inr, Bool, true, false, ◌||◌, Option, none, some, List, [], ◌∷◌, arith,
  ◌==◌, if◌then◌else◌, Bool-cases,
}
use deploy_os.Go.Errors.{error_text, Result, ok, err, ◌>>=◌}
use deploy_os.CommandBus.Wire.{
  Request, Response, kind_ping, kind_get_version, kind_get_info, kind_list_containers,
  kind_inspect_container,
}
use deploy_os.CommandBus.Dispatcher.{Dispatcher, Outcome, returns, new_dispatcher, register}
use deploy_os.Go.Map.{lookup, insert, lookup-insert}
use deploy_os.Go.Integer.{ℤ}

-- systemInfo
pub record SystemInfo : Type 0 where
  pub hostname : String
  pub operating_system : String
  pub architecture : String
  pub cpu_cores : ℤ
  pub memory_bytes : ℕ

-- containers.Runtime, each answer with json.Marshal of what it returned.
pub record Runtime (Container Details : Type 0) : Type 0 where
  pub list_containers : Result (List Container)
  pub inspect_container : String → Result Details
  pub marshal_list : List Container → Result String
  pub marshal_details : Details → Result String

-- What the executors ask of the machine.
pub record Machine : Type 0 where
  pub version : String
  pub collect_system_info : Result SystemInfo
  pub itoa : ℤ → String
  pub format_uint : ℕ → String

abbrev pub succeeded : String → List (String × String) → Response
succeeded message details = record {
  command_id = "";
  success = true;
  message = message;
  details = details;
}

abbrev pub failed : String → Response
failed message = record { command_id = ""; success = false; message = message; details = [] }

-- A payload under a key, or the error's text
payload : String → Result String → Response
unfolding error_text
payload key (ok text) = succeeded "" ((key, text) ∷ [])
payload key (err e) = failed (error_text e)

-- pingExecutor
unfoldable pub ping_executor : Request → Outcome
ping_executor req = returns (succeeded "pong" [])

-- getVersionExecutor
unfoldable pub get_version_executor : Machine → Request → Outcome
get_version_executor m req = returns (succeeded m.version (("version", m.version) ∷ []))

info_response : Machine → Result SystemInfo → Response
unfolding error_text
info_response m (err e) = failed (error_text e)
info_response m (ok info) = succeeded "" (
    ("hostname", info.hostname)
    ∷ ("operating_system", info.operating_system)
    ∷ ("architecture", info.architecture)
    ∷ ("cpu_cores", m.itoa info.cpu_cores)
    ∷ ("memory_bytes", m.format_uint info.memory_bytes)
    ∷ ("deployos_version", m.version)
    ∷ [])

-- getInfoExecutor
unfoldable pub get_info_executor : Machine → Request → Outcome
unfolding info_response
get_info_executor m req = returns (info_response m m.collect_system_info)

-- req.Arguments[key], the empty text where there is none
abbrev pub argument : Option String → String
argument none = ""
argument (some value) = value

module _ {Container Details : Type 0} where
  -- listContainersExecutor
  unfoldable pub list_containers_executor : Runtime Container Details → Request → Outcome
  unfolding payload
  list_containers_executor runtime req =
      returns (payload "containers" (runtime.list_containers >>= λ list. runtime.marshal_list list))

  inspected : Runtime Container Details → String → Response
  unfolding payload
  inspected runtime id =
      if id == ""
      then failed "missing required argument: id"
      else payload "container"
          (runtime.inspect_container id >>= λ details. runtime.marshal_details details)

  -- inspectContainerExecutor
  unfoldable pub inspect_container_executor : Runtime Container Details → Request → Outcome
  unfolding inspected
  inspect_container_executor runtime req =
      returns (inspected runtime (argument (lookup "id" req.arguments)))

  -- newDispatcher
  unfoldable pub agent_dispatcher : Machine → Runtime Container Details → Dispatcher
  unfolding ping_executor get_version_executor get_info_executor list_containers_executor
      inspect_container_executor register
  agent_dispatcher m runtime =
      register kind_inspect_container (inspect_container_executor runtime) (
        register kind_list_containers (list_containers_executor runtime) (
          register kind_get_info (get_info_executor m) (
            register kind_get_version (get_version_executor m)
              (register kind_ping ping_executor new_dispatcher))))

-- The kinds that the agent knows.
abbrev pub is_known : String → Bool
is_known kind =
    kind_inspect_container == kind
    || kind_list_containers == kind
    || kind_get_info == kind
    || kind_get_version == kind
    || kind_ping == kind

-- Whether an executor is found.
abbrev pub found : {A : Type 0} → Option A → Bool
found none = false
found (some a) = true

found-insert :
    {A : Type 0} (key k : String) (a : A) (m : List (String × A))
    → found (lookup k (insert key a m)) ≡ (key == k || found (lookup k m))
found-insert key k a m =
    rw (lookup-insert key k a m)
      (elim (Bool-cases (key == k)) [ inl e ↦ rw e refl | inr e ↦ rw e refl ])

-- The dispatcher of the agent has an executor for exactly the known kinds.
pub agent_dispatcher-is_known :
    {Container Details : Type 0} (m : Machine) (runtime : Runtime Container Details) (kind : String)
    → found (lookup kind (agent_dispatcher m runtime).executors) ≡ is_known kind
unfolding agent_dispatcher register new_dispatcher lookup
agent_dispatcher-is_known m runtime kind =
    rw (found-insert, found-insert, found-insert, found-insert, found-insert) (ground arith)
