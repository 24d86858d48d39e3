-- ===== src/Agent/Process/Rank.antt =====
-- Once its context is canceled, each step of the agent leaves fewer to come.
use deploy_os.Base.{
  ℕ, ◌+◌, ◌≤◌, ◌<◌, ◌≡◌, refl, sym, ◌∙◌, Bool, true, false, Option, none, some, arith,
}
use deploy_os.Go.Errors.{GoError}
use deploy_os.Runtime.{Steps}
use deploy_os.Runtime.HttpServer.Rank as HttpRank
use deploy_os.Connection.Client.Loop.Ends as ClientEnds
use deploy_os.Connection.Client.{default_initial_backoff, default_max_backoff}
use deploy_os.Agent.Process.{
  Process, cancel, collect, Step, signals, conn_runs, http_runs, conn_returns, http_returns,
}
use deploy_os.Agent.Process.Invariant.{Inv, Step-Inv}

done_rank : Bool → ℕ
done_rank true = 0
done_rank false = 1

pub rank : Process → ℕ
unfolding done_rank
rank s =
    ClientEnds.rank s.conn + HttpRank.measure s.http + done_rank s.conn_done + done_rank s.http_done

collect-rank : (r : Option GoError) (s : Process) → rank (collect r s) ≤ rank s
unfolding collect rank cancel
collect-rank none s = omega arith
collect-rank (some e) s = omega (arith, HttpRank.cancel-measure s.http)

collect-canceled :
    (r : Option GoError) (s : Process) → s.http.canceled ≡ true → (collect r s).http.canceled ≡ true
unfolding collect cancel
collect-canceled none s h = h
collect-canceled (some e) s h = refl

-- A step behind the cancellation.
Step-rank :
    (s t : Process)
    → Step s t
    → Inv s
    → s.http.canceled ≡ true
    → (t.http.canceled ≡ true) × (rank t < rank s)
unfolding rank
Step-rank s t (signals c e) v h = let bad = sym c ∙ h in cc
Step-rank s t (conn_runs c step k e) v h =
    let lower =
      ClientEnds.Step-rank default_initial_backoff default_max_backoff s.conn c step (v.same ∙ h) in
    let less = lower.1 in rw e (h, omega (arith, less))
Step-rank s t (http_runs r step k e) v h =
    let lower = HttpRank.Step-measure s.http r step in rw e (k ∙ h, omega (arith, lower))
Step-rank s t (conn_returns p d e) v h = rw (e, d) (h, omega arith)
Step-rank s t (http_returns r p d e) v h =
    let lower = collect-rank r (record s { http_done = true }) in
    rw (e, d) (collect-canceled r (record s { http_done = true }) h, omega (arith, lower))

pub Steps-rank :
    {n : ℕ} {s t : Process}
    → Steps Step n s t
    → Inv s
    → s.http.canceled ≡ true
    → Inv t × (t.http.canceled ≡ true) × (n + rank t ≤ rank s)
Steps-rank (Steps.stop s) v h = (v, h, omega arith)
Steps-rank (Steps.go {s = s} {t = t} r rest) v h =
    let (c, lower) = Step-rank s t r v h in
    let (w, d, few) = Steps-rank rest (Step-Inv s t r v) c in (w, d, omega (arith, lower, few))

pub rank_most : (s : Process) → s.http.canceled ≡ true → rank s ≤ 9
unfolding rank
rank_most s h = omega (
  arith,
  ClientEnds.rank_most s.conn,
  HttpRank.measure_most s.http h,
  done s.conn_done,
  done s.http_done,
)
  where
    done : (b : Bool) → done_rank b ≤ 1
    done true = omega arith
    done false = omega arith
