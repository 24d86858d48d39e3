-- ===== src/Runtime/GrpcServer.antt =====
-- internal/runtime/grpcserver.go: GRPCServer.Run as the steps of its two goroutines and of its own code, taken in any
-- order. The gRPC library is a parameter through its documented behaviour: Serve returns nil only when Stop or GracefulStop
-- was called, and GracefulStop may wait for as long as a stream is open.
pub mod Rank
pub mod Invariant
pub mod Ends
use deploy_os.Base.{String, concat, ◌≡◌, Bool, true, false, Option, none, some, List, [], ◌∷◌, ◌++◌}
use deploy_os.Go.Errors.{GoError, wrap}
use deploy_os.Runtime.{
  Goroutine, listening, finished, Point, selecting, stopping, draining, returned, IsStopped,
}

-- The goroutine that calls GracefulStop and then closes `stopped`.
pub data Stopper : Type 0 where
  unstarted graceful closed : Stopper

pub record Run : Type 0 where
  pub canceled : Bool
  pub goroutine : Goroutine
  -- errCh, of capacity 1
  pub channel : List (Option GoError)
  pub point : Point
  pub stopper : Stopper
  -- Stop was called
  pub forced : Bool

listen_error : String → GoError → GoError
listen_error addr e = wrap (concat ("grpc server: listening on " ∷ addr ∷ ": " ∷ [])) e ""

-- GRPCServer.Run, from what net.Listen gave, with its goroutine started
unfoldable pub start : String → Option GoError → Bool → Run
unfolding listen_error
start addr (some e) canceled = record {
  canceled = canceled;
  goroutine = finished;
  channel = [];
  point = returned (some (listen_error addr e));
  stopper = unstarted;
  forced = false;
}
start addr none canceled = record {
  canceled = canceled;
  goroutine = listening;
  channel = [];
  point = selecting;
  stopper = unstarted;
  forced = false;
}

-- One step.
pub data Step (s t : Run) : Type 0 where
  cancels : s.canceled ≡ false → t ≡ record s { canceled = true } → Step s t
  serving_ends :
      (r : Option GoError)
      → s.goroutine ≡ listening
      → (r ≡ none → IsStopped s.point)
      → t ≡ record s { goroutine = finished; channel = s.channel ++ (r ∷ []) }
      → Step s t
  -- case err := <-errCh
  ends :
      (r : Option GoError) (rest : List (Option GoError))
      → s.point ≡ selecting
      → s.channel ≡ r ∷ rest
      → t ≡ record s { channel = rest; point = returned r }
      → Step s t
  -- case <-ctx.Done(), and the goroutine that stops
  stops :
      s.point ≡ selecting
      → s.canceled ≡ true
      → s.stopper ≡ unstarted
      → t ≡ record s { point = stopping; stopper = graceful }
      → Step s t
  graceful_ends : s.stopper ≡ graceful → t ≡ record s { stopper = closed } → Step s t
  -- case <-stopped
  stopped : s.point ≡ stopping → s.stopper ≡ closed → t ≡ record s { point = draining } → Step s t
  -- case <-time.After(s.shutdownTimeout), and Stop
  times_out : s.point ≡ stopping → t ≡ record s { point = draining; forced = true } → Step s t
  -- return <-errCh
  drains :
      (r : Option GoError) (rest : List (Option GoError))
      → s.point ≡ draining
      → s.channel ≡ r ∷ rest
      → t ≡ record s { channel = rest; point = returned r }
      → Step s t
