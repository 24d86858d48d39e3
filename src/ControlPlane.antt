-- ===== src/ControlPlane.antt =====
-- cmd/server/main.go: the control plane's start, and its two servers under an errgroup. The context of the group is canceled by a
-- signal and by the first error of a server; Wait returns this error, or none, when both have returned.
pub mod Rank
pub mod Invariant
pub mod Ends
pub mod Setup
pub mod Routes
use deploy_os.Base.{String, ◌≡◌, Bool, true, false, Option, none, some}
use deploy_os.Go.Errors.{GoError, wrap, Result, ok, err, ◌>>=◌}
use deploy_os.Config.{Config, Options, Loader, load, validate_config}
use deploy_os.Runtime.Group.{first_error}
use deploy_os.Runtime.{returned}
use deploy_os.Runtime.HttpServer
use deploy_os.Runtime.GrpcServer

abbrev pub no_options : Options
no_options = record { file_path = ""; env_file_path = "" }

-- run, up to the errgroup: what Load, validateConfig and the pool of the database gave
unfoldable pub setup : Loader → (String → Option GoError) → Result Config
setup l pool = load l no_options >>= λ c. validate_config c >>= λ done.
    elim (pool c.supabase.database_url) [
      | none ↦ ok c
      | some e ↦ err (wrap "connecting to database: " e "")
    ]

-- The two servers, whether the errgroup has their results, and the error that it keeps.
pub record Group : Type 0 where
  pub http : HttpServer.Run
  pub grpc : GrpcServer.Run
  pub http_done : Bool
  pub grpc_done : Bool
  pub error : Option GoError

-- Behind the two calls of g.Go
unfoldable pub start : String → Option GoError → Group
start addr bound = record {
  http = HttpServer.start false;
  grpc = GrpcServer.start addr bound false;
  http_done = false;
  grpc_done = false;
  error = none;
}

-- The context that both servers are given
unfoldable pub cancel : Group → Group
cancel s = record s {
  http = record s.http { canceled = true };
  grpc = record s.grpc { canceled = true };
}

-- errgroup's handling of a result
unfoldable pub collect : Option GoError → Group → Group
unfolding cancel
collect none s = s
collect (some e) s = cancel (record s { error = first_error s.error e })

-- One step of the process.
pub data Step (s t : Group) : Type 0 where
  -- SIGINT or SIGTERM
  signals : s.http.canceled ≡ false → t ≡ cancel s → Step s t
  http_runs :
      (r : HttpServer.Run)
      → HttpServer.Step s.http r
      → r.canceled ≡ s.http.canceled
      → t ≡ record s { http = r }
      → Step s t
  grpc_runs :
      (r : GrpcServer.Run)
      → GrpcServer.Step s.grpc r
      → r.canceled ≡ s.grpc.canceled
      → t ≡ record s { grpc = r }
      → Step s t
  http_returns :
      (r : Option GoError)
      → s.http.point ≡ returned r
      → s.http_done ≡ false
      → t ≡ collect r (record s { http_done = true })
      → Step s t
  grpc_returns :
      (r : Option GoError)
      → s.grpc.point ≡ returned r
      → s.grpc_done ≡ false
      → t ≡ collect r (record s { grpc_done = true })
      → Step s t
