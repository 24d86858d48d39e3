-- ===== src/Runtime/HttpServer/Rank.antt =====
-- internal/runtime/httpserver.go: each step of Run leaves fewer to come.
use deploy_os.Base.{◌≡◌, ℕ, ◌+◌, ◌≤◌, ◌<◌, Bool, true, false, arith}
use deploy_os.Runtime.{
  Goroutine, listening, finished, Point, selecting, stopping, draining, returned, point_rank,
  goroutine_rank, canceled_rank,
}
use deploy_os.Runtime.HttpServer.{
  Run, start, Step, cancels, serving_ends, ends, stops, shut_down, overruns, drains,
}

pub measure : Run → ℕ
measure s = canceled_rank s.canceled + goroutine_rank s.goroutine + point_rank s.point

pub Step-measure : (s t : Run) → Step s t → measure t < measure s
unfolding measure
Step-measure s t (cancels c e) = rw (e, c) (omega arith)
Step-measure s t (serving_ends er g c e) = rw (e, g) (omega arith)
Step-measure s t (ends r rest p c e) = rw (e, p) (omega arith)
Step-measure s t (stops p c e) = rw (e, p) (omega arith)
Step-measure s t (shut_down p e) = rw (e, p) (omega arith)
Step-measure s t (overruns er p e) = rw (e, p) (omega arith)
Step-measure s t (drains r rest p c e) = rw (e, p) (omega arith)

pub cancel-measure : (s : Run) → measure (record s { canceled = true }) ≤ measure s
unfolding measure
cancel-measure s = omega arith

pub start-measure : (canceled : Bool) → measure (start canceled) ≤ 5
unfolding start measure
start-measure true = omega arith
start-measure false = omega arith

-- Once the context is canceled, at most four steps are left.
pub measure_most : (s : Run) → s.canceled ≡ true → measure s ≤ 4
unfolding measure
measure_most s c = rw c (omega (arith, goroutine_most s.goroutine, point_most s.point))
  where
    goroutine_most : (g : Goroutine) → goroutine_rank g ≤ 1
    goroutine_most listening = omega arith
    goroutine_most finished = omega arith

    point_most : (p : Point) → point_rank p ≤ 3
    point_most selecting = omega arith
    point_most stopping = omega arith
    point_most draining = omega arith
    point_most (returned r) = omega arith
