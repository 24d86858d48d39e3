-- ===== src/Agent/Process.antt =====
-- internal/agent/agent.go, the end of Agent.Run: the connection's Client.Run and the HTTP server under an errgroup, whose context a signal
-- or an error of the HTTP server cancels. Client.Run returns nil, and Wait returns what the HTTP server returned, when
-- both have.
pub mod Invariant
pub mod Rank
pub mod Ends
use deploy_os.Base.{◌≡◌, Bool, true, false, Option, none, some}
use deploy_os.Go.Errors.{GoError}
use deploy_os.Runtime.{returned}
use deploy_os.Runtime.HttpServer
use deploy_os.Runtime.Group.{first_error}
use deploy_os.Connection.Client.Loop as Client
use deploy_os.Connection.Client.{default_initial_backoff, default_max_backoff}

-- The two goroutines, whether the errgroup has their results, and the error that it keeps.
pub record Process : Type 0 where
  pub conn : Client.Loop
  pub http : HttpServer.Run
  pub conn_done : Bool
  pub http_done : Bool
  pub error : Option GoError

-- Behind the two calls of g.Go, with the backoffs that NewClient sets
unfoldable pub start : Process
start = record {
  conn = Client.start default_initial_backoff;
  http = HttpServer.start false;
  conn_done = false;
  http_done = false;
  error = none;
}

-- The context that both are given
unfoldable pub cancel : Process → Process
cancel s = record s {
  conn = record s.conn { canceled = true };
  http = record s.http { canceled = true };
}

-- errgroup's handling of the HTTP server's result
unfoldable pub collect : Option GoError → Process → Process
unfolding cancel
collect none s = s
collect (some e) s = cancel (record s { error = first_error s.error e })

abbrev pub ClientStep : Client.Loop → Client.Loop → Type 0
ClientStep = Client.Step default_initial_backoff default_max_backoff

-- One step of the process.
pub data Step (s t : Process) : Type 0 where
  -- SIGINT or SIGTERM
  signals : s.http.canceled ≡ false → t ≡ cancel s → Step s t
  conn_runs :
      (c : Client.Loop)
      → ClientStep s.conn c
      → c.canceled ≡ s.conn.canceled
      → t ≡ record s { conn = c }
      → Step s t
  http_runs :
      (r : HttpServer.Run)
      → HttpServer.Step s.http r
      → r.canceled ≡ s.http.canceled
      → t ≡ record s { http = r }
      → Step s t
  conn_returns :
      s.conn.place ≡ Client.stopped
      → s.conn_done ≡ false
      → t ≡ record s { conn_done = true }
      → Step s t
  http_returns :
      (r : Option GoError)
      → s.http.point ≡ returned r
      → s.http_done ≡ false
      → t ≡ collect r (record s { http_done = true })
      → Step s t
