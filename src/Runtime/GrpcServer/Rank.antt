-- ===== src/Runtime/GrpcServer/Rank.antt =====
-- internal/runtime/grpcserver.go: each step of Run leaves fewer to come.
use deploy_os.Base.{ℕ, ◌+◌, ◌≤◌, ◌<◌, String, Bool, true, false, Option, none, some, arith}
use deploy_os.Go.Errors.{GoError}
use deploy_os.Runtime.{point_rank, goroutine_rank, canceled_rank}
use deploy_os.Runtime.GrpcServer.{
  Stopper, unstarted, graceful, closed, Run, start, Step, cancels, serving_ends, ends, stops,
  graceful_ends, stopped, times_out, drains,
}

stopper_rank : Stopper → ℕ
stopper_rank unstarted = 1
stopper_rank graceful = 1
stopper_rank closed = 0

pub measure : Run → ℕ
measure s =
    canceled_rank s.canceled
    + goroutine_rank s.goroutine
    + point_rank s.point
    + stopper_rank s.stopper

pub Step-measure : (s t : Run) → Step s t → measure t < measure s
unfolding measure stopper_rank
Step-measure s t (cancels c e) = rw (e, c) (omega arith)
Step-measure s t (serving_ends r g c e) = rw (e, g) (omega arith)
Step-measure s t (ends r rest p c e) = rw (e, p) (omega arith)
Step-measure s t (stops p c u e) = rw (e, p, u) (omega arith)
Step-measure s t (graceful_ends u e) = rw (e, u) (omega arith)
Step-measure s t (stopped p u e) = rw (e, p) (omega arith)
Step-measure s t (times_out p e) = rw (e, p) (omega arith)
Step-measure s t (drains r rest p c e) = rw (e, p) (omega arith)

pub cancel-measure : (s : Run) → measure (record s { canceled = true }) ≤ measure s
unfolding measure
cancel-measure s = omega arith

pub start-measure :
    (addr : String) (bound : Option GoError) (canceled : Bool)
    → measure (start addr bound canceled) ≤ 6
unfolding start measure stopper_rank
start-measure addr none true = omega arith
start-measure addr none false = omega arith
start-measure addr (some e) true = omega arith
start-measure addr (some e) false = omega arith
