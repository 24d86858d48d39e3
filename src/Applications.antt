-- ===== src/Applications.antt =====
-- internal/applications/application.go: an application, its validation and its moves.
-- The calls of uuid.NewString and time.Now are arguments, `new_id` and `now`.
pub mod Errors
pub mod Status
pub mod Name
pub mod Validity
pub mod Lifecycle
pub mod History
use deploy_os.Base.{
  ℕ, String, concat, Bool, not, ◌||◌, Option, none, some, List, [], ◌∷◌, ◌==◌, if◌then◌else◌,
}
use deploy_os.Go.Errors.{◌>>◌, GoError, sentinel, wrap, Result, ok, fail_if, for_each}
use Errors
use Status.{status_created, valid, allows}
use Name.{name_re}
use deploy_os.Go.Text.{codes, quote}
use deploy_os.Go.Regexp.{match_string}

pub record SourceRepository : Type 0 where
  pub url : String
  pub branch : String

pub record SecretRef : Type 0 where
  pub env_var : String
  pub secret_name : String

pub record Volume : Type 0 where
  pub host_path : String
  pub container_path : String
  pub read_only : Bool

pub record Application : Type 0 where
  pub id : String
  pub user_id : String
  pub name : String
  pub runtime : String
  pub repository : Option SourceRepository
  pub environment_variables : List (String × String)
  pub secret_refs : List SecretRef
  pub volumes : List Volume
  pub domains : List String
  pub status : String
  -- times in nanoseconds
  pub created_at : ℕ
  pub updated_at : ℕ

abbrev pub runtime_docker : String
runtime_docker = "docker"

-- ID.Validate
validate_id : String → Result (Unit {0})
validate_id id = fail_if (id == "") (sentinel Errors.empty_id)

-- Runtime.Validate
validate_runtime : String → Result (Unit {0})
validate_runtime r = fail_if (r == "") (sentinel Errors.empty_runtime)

check_env_var : String × String → Result (Unit {0})
check_env_var (k, v) = fail_if (k == "") (sentinel Errors.empty_env_var_name)

check_secret_ref : SecretRef → Result (Unit {0})
check_secret_ref ref =
    fail_if (ref.env_var == "" || ref.secret_name == "") (sentinel Errors.invalid_secret_ref)

check_volume : Volume → Result (Unit {0})
check_volume v =
    fail_if (v.host_path == "" || v.container_path == "") (sentinel Errors.invalid_volume)

check_domain : String → Result (Unit {0})
check_domain d = fail_if (d == "") (sentinel Errors.invalid_domain)

-- Application.Validate
unfoldable pub validate : Application → Result (Unit {0})
unfolding validate_id validate_runtime check_env_var check_secret_ref check_volume check_domain
validate a = do
  validate_id a.id
  fail_if (a.user_id == "") (sentinel Errors.empty_user_id)
  fail_if (a.name == "") (sentinel Errors.empty_name)
  fail_if (not (match_string name_re (codes a.name))) (sentinel Errors.invalid_name)
  validate_runtime a.runtime
  fail_if (not (valid a.status))
      (wrap "" (sentinel Errors.invalid_status) (concat (": " ∷ quote a.status ∷ [])))
  for_each check_env_var a.environment_variables
  for_each check_secret_ref a.secret_refs
  for_each check_volume a.volumes
  for_each check_domain a.domains

-- The literal of NewApplication.
unfoldable pub created : String → ℕ → String → String → String → Application
created new_id now user_id name runtime = record {
  id = new_id;
  user_id = user_id;
  name = name;
  runtime = runtime;
  repository = none;
  environment_variables = [];
  secret_refs = [];
  volumes = [];
  domains = [];
  status = status_created;
  created_at = now;
  updated_at = now;
}

-- NewApplication
unfoldable pub new_application : String → ℕ → String → String → String → Result Application
new_application new_id now user_id name runtime = do
  let app = created new_id now user_id name runtime
  validate app
  ok app

-- Application.CanTransitionTo
unfoldable pub can_transition_to : Application → String → Bool
unfolding allows
can_transition_to a target = allows a.status target

-- fmt.Errorf("%w: %s -> %s", ErrInvalidTransition, a.Status, target)
abbrev pub refusal : Application → String → GoError
refusal a target =
    wrap "" (sentinel Errors.invalid_transition) (concat (": " ∷ a.status ∷ " -> " ∷ target ∷ []))

-- Application.TransitionTo: the application behind the pointer, and the error.
unfoldable pub transition_to : ℕ → Application → String → Application × Option GoError
transition_to now a target =
    if can_transition_to a target
    then (record a { status = target; updated_at = now }, none)
    else (a, some (refusal a target))
