-- ===== src/Config.antt =====
-- internal/config/config.go: the settings, and how Load puts them together. godotenv, viper and os.UserHomeDir with
-- filepath.Join are parameters: what the .env file gave, what reading the config file gave, and what decoding all settings over the
-- defaults gave.
use deploy_os.Base.{
  ℕ, String, concat, ◌≡◌, refl, sym, ◌↔◌, Option, none, some, List, [], ◌∷◌, ◌==◌, if◌then◌else◌,
  ==_false,
}
use deploy_os.Go.Errors.{
  GoError, other, wrap, Result, ok, err, ◌>>=◌, ◌>>◌, fail_if, map_error, and_then-ok,
  fail_if_empty-ok, map_error-ok, bind-ok, ok_inj,
}

pub record AgentConfig : Type 0 where
  pub http_addr : String
  pub data_dir : String
  pub api_base_url : String
  pub grpc_server_addr : String
  pub user_access_token : String
  pub docker_socket : String

pub record ServerConfig : Type 0 where
  pub http_addr : String
  pub grpc_addr : String

pub record SupabaseConfig : Type 0 where
  pub url : String
  pub anon_key : String
  pub database_url : String

-- The time to live is in nanoseconds.
pub record DeviceTokenConfig : Type 0 where
  pub secret : String
  pub ttl : ℕ

pub record Config : Type 0 where
  pub environment : String
  pub log_level : String
  pub agent : AgentConfig
  pub server : ServerConfig
  pub supabase : SupabaseConfig
  pub device_token : DeviceTokenConfig

pub record Options : Type 0 where
  pub file_path : String
  pub env_file_path : String

-- setDefaults
abbrev pub defaults : List (String × String)
defaults =
    ("environment", "development")
    ∷ ("log_level", "info")
    ∷ ("agent.http_addr", ":8081")
    ∷ ("agent.api_base_url", "http://localhost:8080")
    ∷ ("agent.grpc_server_addr", "localhost:9090")
    ∷ ("agent.data_dir", "")
    ∷ ("agent.user_access_token", "")
    ∷ ("agent.docker_socket", "/var/run/docker.sock")
    ∷ ("server.http_addr", ":8080")
    ∷ ("server.grpc_addr", ":9090")
    ∷ ("supabase.url", "")
    ∷ ("supabase.anon_key", "")
    ∷ ("supabase.database_url", "")
    ∷ ("device_token.secret", "")
    ∷ ("device_token.ttl", "8760h")
    ∷ []

-- The error of a library that reads a file: whether it says that the file is missing.
pub data Missing : Type 0 where
  missing : Missing
  broken : GoError → Missing

-- Where viper looks for the config file.
pub data Source : Type 0 where
  -- SetConfigFile
  explicit : String → Source
  -- SetConfigName("config"), SetConfigType("yaml"), AddConfigPath(".")
  search_config : Source

-- The libraries. `decode` sees the environment with the .env file loaded.
pub record Loader : Type 0 where
  pub load_env : String → Option Missing
  pub read_config : Source → Option Missing
  pub decode : List (String × String) → Source → Result Config
  -- os.UserHomeDir, and filepath.Join(home, ".deployos")
  pub home_dir : Result String
  pub join : String → String → String

abbrev pub env_file : Options → String
env_file o = if o.env_file_path == "" then ".env" else o.env_file_path

abbrev pub source : Options → Source
source o = if o.file_path == "" then search_config else explicit o.file_path

-- A missing file is no error.
ignore_missing : String → Option Missing → Result (Unit {0})
ignore_missing before none = ok tt
ignore_missing before (some missing) = ok tt
ignore_missing before (some (broken e)) = err (wrap before e "")

-- defaultAgentDataDir
unfoldable pub default_agent_data_dir : Loader → String
default_agent_data_dir l = elim l.home_dir [
  | err e ↦ ".deployos"
  | ok home ↦ l.join home ".deployos"
]

with_data_dir : Loader → Config → Config
unfolding default_agent_data_dir
with_data_dir l c =
    if c.agent.data_dir == ""
    then record c { agent = record c.agent { data_dir = default_agent_data_dir l } }
    else c

-- Load
unfoldable pub load : Loader → Options → Result Config
unfolding ignore_missing with_data_dir
load l o =
    ignore_missing (concat ("loading " ∷ env_file o ∷ ": " ∷ [])) (l.load_env (env_file o))
    >> ignore_missing "reading config file: " (l.read_config (source o))
    >> map_error (λ e. wrap "unmarshaling config: " e "") (l.decode defaults (source o))
    >>= λ c. ok (with_data_dir l c)

-- validateConfig of cmd/server/main.go
unfoldable pub validate_config : Config → Result (Unit {0})
validate_config c =
    fail_if (c.supabase.database_url == "") (other "DEPLOYOS_SUPABASE_DATABASE_URL is required")
    >> fail_if (c.supabase.url == "") (other "DEPLOYOS_SUPABASE_URL is required")
    >> fail_if (c.supabase.anon_key == "") (other "DEPLOYOS_SUPABASE_ANON_KEY is required")
    >> fail_if (c.device_token.secret == "") (other "DEPLOYOS_DEVICE_TOKEN_SECRET is required")

-- The file was read, or is missing.
abbrev pub IsReadable : Option Missing → Type 0
IsReadable none = Unit
IsReadable (some missing) = Unit
IsReadable (some (broken e)) = ⊥

-- What Load made of the settings.
pub record IsLoaded (l : Loader) (o : Options) (c : Config) : Type 0 where
  pub settings : Config
  pub env : IsReadable (l.load_env (env_file o))
  pub file : IsReadable (l.read_config (source o))
  pub decoded : l.decode defaults (source o) ≡ ok settings
  pub filled : c ≡ (
      if settings.agent.data_dir == ""
      then record settings { agent = record settings.agent { data_dir = default_agent_data_dir l } }
      else settings)

ignore_missing-IsReadable :
    (before : String) (m : Option Missing) → ignore_missing before m ≡ ok tt → IsReadable m
unfolding ignore_missing
ignore_missing-IsReadable before none h = tt
ignore_missing-IsReadable before (some missing) h = tt
ignore_missing-IsReadable before (some (broken e)) h = cc

IsReadable-ignore_missing :
    (before : String) (m : Option Missing) → IsReadable m → ignore_missing before m ≡ ok tt
unfolding ignore_missing
IsReadable-ignore_missing before none h = refl
IsReadable-ignore_missing before (some missing) h = refl
IsReadable-ignore_missing before (some (broken e)) h = absurd h

loaded : (l : Loader) (o : Options) (c : Config) → load l o ≡ ok c → IsLoaded l o c
unfolding load
loaded l o c h =
    let (settings, h3, last) = bind-ok _ (λ s. ok (with_data_dir l s)) c h in
    let (h2, decoded) = and_then-ok _ _ settings h3 in
    let (env, file) = and_then-ok _ _ tt h2 in
    record {
      settings = settings;
      env = ignore_missing-IsReadable _ (l.load_env (env_file o)) env;
      file = ignore_missing-IsReadable _ (l.read_config (source o)) file;
      decoded = map_error-ok _ _ settings decoded;
      filled = sym (ok_inj (unfold with_data_dir in last));
    }

IsLoaded-load : (l : Loader) (o : Options) (c : Config) → IsLoaded l o c → load l o ≡ ok c
unfolding load with_data_dir
IsLoaded-load l o c a = rw (
  IsReadable-ignore_missing (concat ("loading " ∷ env_file o ∷ ": " ∷ [])) (l.load_env (env_file o))
      a.env,
  IsReadable-ignore_missing "reading config file: " (l.read_config (source o)) a.file,
  a.decoded,
  a.filled,
)

-- Load gives a configuration exactly when the .env file and the config file can each be read or
-- are missing and the settings over the defaults decode; the configuration is then the decoded
-- one, with the default directory of the agent where it names none.
pub load-IsLoaded : (l : Loader) (o : Options) (c : Config) → (load l o ≡ ok c) ↔ IsLoaded l o c
load-IsLoaded l o c = (loaded l o c, IsLoaded-load l o c)

-- The four settings that the control plane cannot do without.
pub record IsDeployable (c : Config) : Type 0 where
  pub database : ¬ (c.supabase.database_url ≡ "")
  pub url : ¬ (c.supabase.url ≡ "")
  pub key : ¬ (c.supabase.anon_key ≡ "")
  pub secret : ¬ (c.device_token.secret ≡ "")

valid-IsDeployable : (c : Config) → validate_config c ≡ ok tt → IsDeployable c
unfolding validate_config
valid-IsDeployable c h =
    let (h3, s) = and_then-ok _ _ tt h in
    let (h2, k) = and_then-ok _ _ tt h3 in
    let (d, u) = and_then-ok _ _ tt h2 in
    record {
      database = fail_if_empty-ok c.supabase.database_url _ d;
      url = fail_if_empty-ok c.supabase.url _ u;
      key = fail_if_empty-ok c.supabase.anon_key _ k;
      secret = fail_if_empty-ok c.device_token.secret _ s;
    }

-- validateConfig accepts a configuration exactly when it holds the four required settings.
pub validate_config-IsDeployable : (c : Config) → (validate_config c ≡ ok tt) ↔ IsDeployable c
unfolding validate_config
validate_config-IsDeployable c = (
  valid-IsDeployable c,
  λ d. rw (
    ==_false c.supabase.database_url "" d.database,
    ==_false c.supabase.url "" d.url,
    ==_false c.supabase.anon_key "" d.key,
    ==_false c.device_token.secret "" d.secret,
  ),
)
