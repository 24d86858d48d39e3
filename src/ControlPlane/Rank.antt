-- ===== src/ControlPlane/Rank.antt =====
-- cmd/server/main.go: each step of the control plane leaves fewer to come.
use deploy_os.Base.{ℕ, ◌+◌, ◌≤◌, ◌<◌, String, refl, Bool, true, false, Option, none, some, arith}
use deploy_os.Go.Errors.{GoError}
use deploy_os.Runtime.HttpServer
use deploy_os.Runtime.HttpServer.Rank as HttpRank
use deploy_os.Runtime.GrpcServer.Rank as GrpcRank
use deploy_os.ControlPlane.{
  Group, start, cancel, collect, Step, signals, http_runs, grpc_runs, http_returns, grpc_returns,
}

done_rank : Bool → ℕ
done_rank true = 0
done_rank false = 1

pub rank : Group → ℕ
unfolding done_rank
rank s =
    HttpRank.measure s.http
    + GrpcRank.measure s.grpc
    + done_rank s.http_done
    + done_rank s.grpc_done

cancel-rank : (s : Group) → rank (cancel s) ≤ rank s
unfolding rank cancel
cancel-rank s = omega (arith, HttpRank.cancel-measure s.http, GrpcRank.cancel-measure s.grpc)

collect-rank : (r : Option GoError) (s : Group) → rank (collect r s) ≤ rank s
unfolding collect rank cancel
collect-rank none s = omega arith
collect-rank (some e) s =
    omega (arith, HttpRank.cancel-measure s.http, GrpcRank.cancel-measure s.grpc)

pub Step-rank : (s t : Group) → Step s t → rank t < rank s
unfolding rank cancel
Step-rank s t (signals c e) =
    let lower =
      HttpRank.Step-measure s.http (record s.http { canceled = true })
        (HttpServer.cancels c refl) in
    let kept = GrpcRank.cancel-measure s.grpc in rw e (omega (arith, lower, kept))
Step-rank s t (http_runs r step c e) =
    let lower = HttpRank.Step-measure s.http r step in rw e (omega (arith, lower))
Step-rank s t (grpc_runs r step c e) =
    let lower = GrpcRank.Step-measure s.grpc r step in rw e (omega (arith, lower))
Step-rank s t (http_returns r p d e) =
    let lower = collect-rank r (record s { http_done = true }) in rw (e, d) (omega (arith, lower))
Step-rank s t (grpc_returns r p d e) =
    let lower = collect-rank r (record s { grpc_done = true }) in rw (e, d) (omega (arith, lower))

pub start-rank : (addr : String) (bound : Option GoError) → rank (start addr bound) ≤ 13
unfolding rank start
start-rank addr bound =
    omega (arith, HttpRank.start-measure false, GrpcRank.start-measure addr bound false)
