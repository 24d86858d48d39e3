-- ===== src/ControlPlane/Invariant.antt =====
-- cmd/server/main.go: what holds of the two servers and the errgroup at any time.
use deploy_os.Base.{String, ◌≡◌, refl, sym, ◌∙◌, inl, inr, true, false, Option, none, some}
use deploy_os.Go.Errors.{GoError}
use deploy_os.Runtime.Group.{
  Noted, Noted-moves, IsKept, IsKept-moves, IsKept-first, first_error-some,
}
use deploy_os.Runtime.{returned}
use deploy_os.Runtime.HttpServer
use deploy_os.Runtime.HttpServer.Invariant as HttpInvariant
use deploy_os.Runtime.HttpServer.Ends as HttpEnds
use deploy_os.Runtime.GrpcServer
use deploy_os.Runtime.GrpcServer.{closed}
use deploy_os.Runtime.GrpcServer.Invariant as GrpcInvariant
use deploy_os.Runtime.GrpcServer.Ends as GrpcEnds
use deploy_os.ControlPlane.{
  Group, start, cancel, collect, Step, signals, http_runs, grpc_runs, http_returns, grpc_returns,
}

pub record Inv (s : Group) : Type 0 where
  pub http : HttpInvariant.Inv s.http
  pub grpc : GrpcInvariant.Inv s.grpc
  pub same : s.http.canceled ≡ s.grpc.canceled
  pub http_noted : Noted s.http_done s.http.point s.http.canceled s.error
  pub grpc_noted : Noted s.grpc_done s.grpc.point s.http.canceled s.error
  pub kept : IsKept s.error s.http.point s.grpc.point

start-same :
    (addr : String) (bound : Option GoError)
    → (HttpServer.start false).canceled ≡ (GrpcServer.start addr bound false).canceled
unfolding HttpServer.start GrpcServer.start
start-same addr none = refl
start-same addr (some e) = refl

pub start-Inv : (addr : String) (bound : Option GoError) → Inv (start addr bound)
unfolding start
start-Inv addr bound = record {
  http = HttpInvariant.start-Inv false;
  grpc = GrpcInvariant.start-Inv addr bound false;
  same = start-same addr bound;
  http_noted = λ d. cc;
  grpc_noted = λ d. cc;
  kept = tt;
}

cancel-Inv : (s : Group) → Inv s → Inv (cancel s)
unfolding cancel
cancel-Inv s v = record {
  http = HttpInvariant.cancel-Inv s.http v.http;
  grpc = GrpcInvariant.cancel-Inv s.grpc v.grpc;
  same = refl;
  http_noted = λ d. let (r, p, n) = v.http_noted d in (r, p, λ e q. (refl, (n e q).1));
  grpc_noted = λ d. let (r, p, n) = v.grpc_noted d in (r, p, λ e q. (refl, (n e q).1));
  kept = v.kept;
}

http_returns-Inv :
    (r : Option GoError) (s : Group)
    → s.http.point ≡ returned r
    → Inv s
    → Inv (collect r (record s { http_done = true }))
unfolding collect cancel
http_returns-Inv none s p v = record {
  http = v.http;
  grpc = v.grpc;
  same = v.same;
  http_noted = λ d. (none, p, λ e q. cc);
  grpc_noted = v.grpc_noted;
  kept = v.kept;
}
http_returns-Inv (some e) s p v = record {
  http = HttpInvariant.cancel-Inv s.http v.http;
  grpc = GrpcInvariant.cancel-Inv s.grpc v.grpc;
  same = refl;
  http_noted = λ d. (some e, p, λ x q. (refl, first_error-some s.error e));
  grpc_noted =
      λ d. let (r, q, n) = v.grpc_noted d in (r, q, λ x h. (refl, first_error-some s.error e));
  kept = IsKept-first s.error e s.http.point s.grpc.point (inl p) v.kept;
}

grpc_returns-Inv :
    (r : Option GoError) (s : Group)
    → s.grpc.point ≡ returned r
    → Inv s
    → Inv (collect r (record s { grpc_done = true }))
unfolding collect cancel
grpc_returns-Inv none s p v = record {
  http = v.http;
  grpc = v.grpc;
  same = v.same;
  http_noted = v.http_noted;
  grpc_noted = λ d. (none, p, λ e q. cc);
  kept = v.kept;
}
grpc_returns-Inv (some e) s p v = record {
  http = HttpInvariant.cancel-Inv s.http v.http;
  grpc = GrpcInvariant.cancel-Inv s.grpc v.grpc;
  same = refl;
  http_noted =
      λ d. let (r, q, n) = v.http_noted d in (r, q, λ x h. (refl, first_error-some s.error e));
  grpc_noted = λ d. (some e, p, λ x q. (refl, first_error-some s.error e));
  kept = IsKept-first s.error e s.http.point s.grpc.point (inr p) v.kept;
}

pub Step-Inv : (s t : Group) → Step s t → Inv s → Inv t
Step-Inv s t (signals c e) v = rw e (cancel-Inv s v)
Step-Inv s t (http_runs r step c e) v =
    let stays = λ (o : Option GoError). HttpEnds.returned-stays s.http r o step in
    rw e (record {
      http = HttpInvariant.Step-Inv s.http r step v.http;
      grpc = v.grpc;
      same = c ∙ v.same;
      http_noted =
          Noted-moves s.http_done s.http.point r.point s.http.canceled r.canceled s.error stays c
            v.http_noted;
      grpc_noted =
          Noted-moves s.grpc_done s.grpc.point s.grpc.point s.http.canceled r.canceled s.error
            (λ o h. h) c v.grpc_noted;
      kept =
          IsKept-moves s.error s.http.point s.grpc.point r.point s.grpc.point stays (λ o h. h)
            v.kept;
    })
Step-Inv s t (grpc_runs r step c e) v =
    let stays = λ (o : Option GoError). GrpcEnds.returned-stays s.grpc r o step in
    rw e (record {
      http = v.http;
      grpc = GrpcInvariant.Step-Inv s.grpc r step v.grpc;
      same = v.same ∙ sym c;
      http_noted = v.http_noted;
      grpc_noted =
          Noted-moves s.grpc_done s.grpc.point r.point s.http.canceled s.http.canceled s.error stays
            refl v.grpc_noted;
      kept =
          IsKept-moves s.error s.http.point s.grpc.point s.http.point r.point (λ o h. h) stays
            v.kept;
    })
Step-Inv s t (http_returns r p d e) v = rw e (http_returns-Inv r s p v)
Step-Inv s t (grpc_returns r p d e) v = rw e (grpc_returns-Inv r s p v)
