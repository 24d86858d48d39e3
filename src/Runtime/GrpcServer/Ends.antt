-- ===== src/Runtime/GrpcServer/Ends.antt =====
-- internal/runtime/grpcserver.go: Run ends, what it returns, and that nothing is served behind its back.
use deploy_os.Base.{
  ℕ, ◌≤◌, String, ◌≡◌, refl, sym, ap, ◌∙◌, ◌⊎◌, inl, inr, Bool, true, false, Option, none, [], ◌∷◌,
  ◌++◌, arith, Bool-cases,
}
use deploy_os.Go.Errors.{GoError}
use deploy_os.Runtime.{
  point-cases, Steps, Steps-measure, Goroutine, listening, finished, Point, selecting, stopping,
  draining, returned,
}
use deploy_os.Runtime.Channel.{Fits}
use deploy_os.Runtime.GrpcServer.{
  graceful, closed, Run, start, Step, cancels, serving_ends, ends, stops, graceful_ends, stopped,
  times_out, drains,
}
use deploy_os.Runtime.GrpcServer.Rank.{measure, Step-measure, start-measure}
use deploy_os.Runtime.GrpcServer.Invariant.{Inv, IsOutcome, run-Inv}

-- A step that leaves the context as it is, and is not the end of GracefulStop.
pub record Advance (s : Run) : Type 0 where
  pub after : Run
  pub step : Step s after
  pub kept : after.canceled ≡ s.canceled
  pub real : ¬ (after ≡ record s { stopper = closed })

-- Run goes on, once its context is canceled, until it returns, whatever GracefulStop does.
pub Inv-progress :
    (s : Run)
    → Inv s
    → s.canceled ≡ true
    → (p : Point) → s.point ≡ p
    → ((r : Option GoError) → ¬ (p ≡ returned r))
    → Advance s
Inv-progress s v c selecting e n = record {
  after = record s { point = stopping; stopper = graceful };
  step = stops e c (rw e at v.ways) refl;
  kept = refl;
  real = λ q. let bad = ap (λ (y : Run). y.point) q ∙ e in cc;
}
Inv-progress s v c stopping e n = record {
  after = record s { point = draining; forced = true };
  step = times_out e refl;
  kept = refl;
  real = λ q. let bad = ap (λ (y : Run). y.point) q ∙ e in cc;
}
Inv-progress s v c draining e n = drain s.goroutine refl
  where
    drain : (g : Goroutine) → s.goroutine ≡ g → Advance s
    drain listening q = record {
      after = record s { goroutine = finished; channel = s.channel ++ (none ∷ []) };
      step = serving_ends none q (λ b. rw e tt) refl;
      kept = refl;
      real = λ h. let bad = ap (λ (y : Run). y.goroutine) h ∙ q in cc;
    }
    drain finished q =
        let fits : Fits finished s.channel draining = rw (q, e) at v.fits in
        record {
          after = record s { channel = []; point = returned fits.0 };
          step = drains fits.0 [] e fits.1 refl;
          kept = refl;
          real = λ h. let bad = ap (λ (y : Run). y.point) h ∙ e in cc;
        }
Inv-progress s v c (returned r) e n = absurd (n r refl)

-- A run of the gRPC server takes at most six steps in whatever order; and at any time its
-- context is not canceled, or Run has returned, or a further step can be taken that leaves the
-- context as it is and is not the end of GracefulStop, which may never come.
pub run_stops :
    (addr : String) (bound : Option GoError) (canceled : Bool) (n : ℕ) (t : Run)
    → Steps Step n (start addr bound canceled) t
    → (n ≤ 6)
      × ((t.canceled ≡ false)
          ⊎ (((r : Option GoError) × (t.point ≡ returned r))
              ⊎ ((u : Run) × Step t u
                  × (u.canceled ≡ t.canceled)
                  × ¬ (u ≡ record t { stopper = closed }))))
run_stops addr bound canceled n t steps =
    let few = Steps-measure Step measure Step-measure steps in
    let most = start-measure addr bound canceled in
    (
      omega (arith, few, most),
      elim (Bool-cases t.canceled) [
        | inr serving ↦ inl serving
        | inl c ↦ inr (elim (point-cases t.point) [
          | inl (r, e) ↦ inl (r, e)
          | inr running ↦
              let a =
                Inv-progress t (run-Inv addr bound canceled n t steps) c t.point refl running in
              inr (a.after, a.step, a.kept, a.real)
        ])
      ],
    )

-- When Run of the gRPC server has returned, its serving goroutine has finished, the result is
-- one that its listener, Serve or the shutdown accounts for, and a GracefulStop that still waits
-- has been followed by Stop.
pub run_leaves_nothing :
    (addr : String) (bound : Option GoError) (canceled : Bool) (n : ℕ) (t : Run)
    (r : Option GoError)
    → Steps Step n (start addr bound canceled) t
    → t.point ≡ returned r
    → (t.goroutine ≡ finished) × IsOutcome t.canceled r × (t.stopper ≡ graceful → t.forced ≡ true)
run_leaves_nothing addr bound canceled n t r steps e =
    let v = run-Inv addr bound canceled n t steps in
    (rw e at v.over, rw e at v.gave, rw e at v.ways)

-- A Run that has returned does not return again.
pub returned-stays :
    (s t : Run) (r : Option GoError) → Step s t → s.point ≡ returned r → t.point ≡ returned r
returned-stays s t r (cancels c e) h = ap (λ (y : Run). y.point) e ∙ h
returned-stays s t r (serving_ends o g c e) h = ap (λ (y : Run). y.point) e ∙ h
returned-stays s t r (ends o rest p c e) h = let bad = sym p ∙ h in cc
returned-stays s t r (stops p c u e) h = let bad = sym p ∙ h in cc
returned-stays s t r (graceful_ends u e) h = ap (λ (y : Run). y.point) e ∙ h
returned-stays s t r (stopped p u e) h = let bad = sym p ∙ h in cc
returned-stays s t r (times_out p e) h = let bad = sym p ∙ h in cc
returned-stays s t r (drains o rest p c e) h = let bad = sym p ∙ h in cc
