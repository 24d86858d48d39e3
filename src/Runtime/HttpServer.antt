-- ===== src/Runtime/HttpServer.antt =====
-- internal/runtime/httpserver.go: HTTPServer.Run as the steps of its goroutine and of its own code, taken in any order. net/http is
-- a parameter through its documented behaviour: once Shutdown is called, ListenAndServe returns ErrServerClosed, and
-- Shutdown returns, with an error at the latest when its context ends.
pub mod Rank
pub mod Invariant
pub mod Ends
use deploy_os.Base.{◌≡◌, Bool, true, false, Option, none, some, List, [], ◌∷◌, ◌++◌, if◌then◌else◌}
use deploy_os.Go.Errors.{Sentinel, GoError, wrap, is}
use deploy_os.Runtime.{
  Goroutine, listening, finished, Point, selecting, stopping, draining, returned, IsStopped,
}

abbrev pub err_server_closed : Sentinel
err_server_closed = record { name = "http.ErrServerClosed"; text = "http: Server closed" }

pub record Run : Type 0 where
  pub canceled : Bool
  pub goroutine : Goroutine
  -- errCh, of capacity 1
  pub channel : List (Option GoError)
  pub point : Point

-- HTTPServer.Run, with its goroutine started
unfoldable pub start : Bool → Run
start canceled = record {
  canceled = canceled;
  goroutine = listening;
  channel = [];
  point = selecting;
}

-- What the goroutine sends when ListenAndServe returns e
unfoldable pub serve_result : GoError → Option GoError
serve_result e = if is e err_server_closed then none else some (wrap "http server: " e "")

pub shutdown_error : GoError → GoError
shutdown_error e = wrap "http server shutdown: " e ""

-- One step. ListenAndServe may run on, or return with an error, which is ErrServerClosed only behind a call of Shutdown.
pub data Step (s t : Run) : Type 0 where
  cancels : s.canceled ≡ false → t ≡ record s { canceled = true } → Step s t
  serving_ends :
      (e : GoError)
      → s.goroutine ≡ listening
      → (is e err_server_closed ≡ true → IsStopped s.point)
      → t ≡ record s { goroutine = finished; channel = s.channel ++ (serve_result e ∷ []) }
      → Step s t
  -- case err := <-errCh
  ends :
      (r : Option GoError) (rest : List (Option GoError))
      → s.point ≡ selecting
      → s.channel ≡ r ∷ rest
      → t ≡ record s { channel = rest; point = returned r }
      → Step s t
  -- case <-ctx.Done(), and the call of Shutdown
  stops : s.point ≡ selecting → s.canceled ≡ true → t ≡ record s { point = stopping } → Step s t
  shut_down : s.point ≡ stopping → t ≡ record s { point = draining } → Step s t
  overruns :
      (e : GoError)
      → s.point ≡ stopping
      → t ≡ record s { point = returned (some (shutdown_error e)) }
      → Step s t
  -- return <-errCh
  drains :
      (r : Option GoError) (rest : List (Option GoError))
      → s.point ≡ draining
      → s.channel ≡ r ∷ rest
      → t ≡ record s { channel = rest; point = returned r }
      → Step s t
