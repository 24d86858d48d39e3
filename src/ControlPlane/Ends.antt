-- ===== src/ControlPlane/Ends.antt =====
-- cmd/server/main.go: the control plane stops, with both servers.
use deploy_os.Base.{
  false, ℕ, ◌≤◌, ◌<◌, String, ◌≡◌, refl, sym, ap, ◌∙◌, subst, ◌⊎◌, inl, inr, Bool, true, Option,
  none, some, arith, Bool-cases,
}
use deploy_os.Go.Errors.{GoError}
use deploy_os.Runtime.Group.{then_stage, same_result, quiet, http-canceled}
use deploy_os.Runtime.{Steps, Steps-measure, Steps-invariant, returned, point-cases}
use deploy_os.Runtime.HttpServer.Rank as HttpRank
use deploy_os.Runtime.HttpServer.Ends as HttpEnds
use deploy_os.Runtime.GrpcServer.{closed}
use deploy_os.Runtime.GrpcServer.Invariant as GrpcInvariant
use deploy_os.Runtime.GrpcServer.Ends as GrpcEnds
use deploy_os.ControlPlane.{
  Group, start, cancel, collect, Step, http_runs, grpc_runs, http_returns, grpc_returns,
}
use deploy_os.ControlPlane.Rank.{rank, Step-rank, start-rank}
use deploy_os.ControlPlane.Invariant.{Inv, Step-Inv, start-Inv}

collect-http_done : (r : Option GoError) (s : Group) → (collect r s).http_done ≡ s.http_done
unfolding collect cancel
collect-http_done none s = refl
collect-http_done (some e) s = refl

collect-grpc_done : (r : Option GoError) (s : Group) → (collect r s).grpc_done ≡ s.grpc_done
unfolding collect cancel
collect-grpc_done none s = refl
collect-grpc_done (some e) s = refl

-- A further step, that is not the end of GracefulStop.
pub record Onward (t : Group) : Type 0 where
  pub after : Group
  pub step : Step t after
  pub real : ¬ (after ≡ record t { grpc = record t.grpc { stopper = closed } })

same_run : (n : ℕ) → ¬ (n < n)
same_run n h = omega (arith, h)

http-returned :
    (t : Group)
    → Inv t
    → t.http.canceled ≡ true
    → ((r : Option GoError) × (t.http.point ≡ returned r)) ⊎ Onward t
http-returned t v c = elim (point-cases t.http.point) [
  | inl done ↦ inl done
  | inr running ↦
      let a = HttpEnds.Inv-progress t.http v.http c t.http.point refl running in
      let lower = HttpRank.Step-measure t.http a.after a.step in
      inr (record {
        after = record t { http = a.after };
        step = http_runs a.after a.step a.kept refl;
        real = λ q. same_run (HttpRank.measure t.http) (
            subst (λ x. HttpRank.measure x < HttpRank.measure t.http) (ap (λ (y : Group). y.http) q)
              lower);
      })
]

grpc-returned :
    (t : Group)
    → Inv t
    → t.http.canceled ≡ true
    → ((r : Option GoError) × (t.grpc.point ≡ returned r)) ⊎ Onward t
grpc-returned t v c = elim (point-cases t.grpc.point) [
  | inl done ↦ inl done
  | inr running ↦
      let a = GrpcEnds.Inv-progress t.grpc v.grpc (sym v.same ∙ c) t.grpc.point refl running in
      inr (record {
        after = record t { grpc = a.after };
        step = grpc_runs a.after a.step a.kept refl;
        real = λ q. a.real (ap (λ (y : Group). y.grpc) q);
      })
]

apart : {b : Bool} → b ≡ true → b ≡ false → ⊥
apart p q = let bad = sym p ∙ q in cc

http-collected :
    (t : Group) (r : Option GoError) → t.http.point ≡ returned r → (t.http_done ≡ true) ⊎ Onward t
http-collected t r p = elim (Bool-cases t.http_done) [
  | inl e ↦ inl e
  | inr e ↦ inr (record {
    after = collect r (record t { http_done = true });
    step = http_returns r p e refl;
    real = λ q.
        apart (collect-http_done r (record t { http_done = true }))
          (ap (λ (y : Group). y.http_done) q ∙ e);
  })
]

grpc-collected :
    (t : Group) (r : Option GoError) → t.grpc.point ≡ returned r → (t.grpc_done ≡ true) ⊎ Onward t
grpc-collected t r p = elim (Bool-cases t.grpc_done) [
  | inl e ↦ inl e
  | inr e ↦ inr (record {
    after = collect r (record t { grpc_done = true });
    step = grpc_returns r p e refl;
    real = λ q.
        apart (collect-grpc_done r (record t { grpc_done = true }))
          (ap (λ (y : Group). y.grpc_done) q ∙ e);
  })
]

-- What sets the end in motion.
pub data IsEnding (t : Group) : Type 0 where
  by_signal : t.http.canceled ≡ true → IsEnding t
  by_http : (r : Option GoError) → t.http.point ≡ returned r → IsEnding t
  by_grpc : (r : Option GoError) → t.grpc.point ≡ returned r → IsEnding t

grpc-canceled :
    (canceled : Bool) (r : Option GoError)
    → ((e : GoError) → r ≡ some e → canceled ≡ true)
    → GrpcInvariant.IsOutcome canceled r
    → canceled ≡ true
grpc-canceled canceled r f (GrpcInvariant.clean c e) = c
grpc-canceled canceled r f (GrpcInvariant.failed e q) = f e q

ending-canceled : (t : Group) → Inv t → IsEnding t → (t.http.canceled ≡ true) ⊎ Onward t
ending-canceled t v (by_signal c) = inl c
ending-canceled t v (by_http r p) = then_stage (http-collected t r p) (λ done.
    let (o, at, noted) = v.http_noted done in
    inl (
      http-canceled t.http.canceled r (λ e q. (noted e (same_result (sym at ∙ p) ∙ q)).0)
        (rw p at v.http.gave)))
ending-canceled t v (by_grpc r p) = then_stage (grpc-collected t r p) (λ done.
    let (o, at, noted) = v.grpc_noted done in
    inl (
      v.same
      ∙ grpc-canceled t.grpc.canceled r
          (λ e q. sym v.same ∙ (noted e (same_result (sym at ∙ p) ∙ q)).0) (rw p at v.grpc.gave)))

-- What Wait gives for the results of the two servers.
abbrev pub IsResult : Option GoError → Option GoError → Option GoError → Type 0
IsResult none r q = (r ≡ none) × (q ≡ none)
IsResult (some e) r q = (r ≡ some e) ⊎ (q ≡ some e)

result :
    (t : Group) (r q : Option GoError)
    → Inv t
    → t.http.point ≡ returned r
    → t.grpc.point ≡ returned q
    → t.http_done ≡ true
    → t.grpc_done ≡ true
    → (error : Option GoError) → t.error ≡ error
    → IsResult error r q
result t r q v p o h g none e = (
  quiet t.http_done t.http.point t.http.canceled r h p (rw e at v.http_noted),
  quiet t.grpc_done t.grpc.point t.http.canceled q g o (rw e at v.grpc_noted),
)
result t r q v p o h g (some e) kept = by (rw kept at v.kept)
  where
    by :
        (t.http.point ≡ returned (some e)) ⊎ (t.grpc.point ≡ returned (some e))
        → (r ≡ some e) ⊎ (q ≡ some e)
    by (inl x) = inl (same_result (sym p ∙ x))
    by (inr x) = inr (same_result (sym o ∙ x))

-- Both servers have returned, and the group has their results.
pub record IsOver (t : Group) : Type 0 where
  pub http_result : Option GoError
  pub grpc_result : Option GoError
  pub http_returned : t.http.point ≡ returned http_result
  pub grpc_returned : t.grpc.point ≡ returned grpc_result
  pub http_collected : t.http_done ≡ true
  pub grpc_collected : t.grpc_done ≡ true
  pub result : IsResult t.error http_result grpc_result

over : (t : Group) → Inv t → t.http.canceled ≡ true → IsOver t ⊎ Onward t
over t v c = then_stage (http-returned t v c) (λ (r, p). then_stage (grpc-returned t v c) (λ (q, o).
    then_stage (http-collected t r p) (λ h. then_stage (grpc-collected t q o) (λ g. inl (record {
      http_result = r;
      grpc_result = q;
      http_returned = p;
      grpc_returned = o;
      http_collected = h;
      grpc_collected = g;
      result = result t r q v p o h g t.error refl;
    })))))

-- Once a signal has come or one of the control plane's two servers has returned, with or without
-- an error, then at most thirteen steps were taken, in whatever order, and a further step can be
-- taken that is not the end of GracefulStop, which may never come; or both servers have returned
-- and the errgroup has both results, and its error is none if both are, and else the error of
-- one of them.
pub serve_ends :
    (addr : String) (bound : Option GoError) (n : ℕ) (t : Group)
    → Steps Step n (start addr bound) t
    → IsEnding t
    → (n ≤ 13) × (IsOver t ⊎ Onward t)
serve_ends addr bound n t steps ending =
    let v = Steps-invariant Step Inv Step-Inv steps (start-Inv addr bound) in
    let few = Steps-measure Step rank Step-rank steps in
    let most = start-rank addr bound in
    (omega (arith, few, most), then_stage (ending-canceled t v ending) (over t v))
