-- ===== src/Runtime/HttpServer/Ends.antt =====
-- internal/runtime/httpserver.go: Run ends, and what it returns.
use deploy_os.Base.{
  ℕ, ◌≤◌, ◌≡◌, refl, sym, ap, ◌∙◌, ◌⊎◌, inl, inr, Bool, true, false, Option, [], ◌∷◌, ◌++◌, arith,
  Bool-cases,
}
use deploy_os.Go.Errors.{GoError, sentinel}
use deploy_os.Runtime.{
  point-cases, Steps, Steps-measure, Steps-invariant, Goroutine, listening, finished, Point,
  selecting, stopping, draining, returned,
}
use deploy_os.Runtime.Channel.{Fits}
use deploy_os.Runtime.HttpServer.{
  err_server_closed, Run, start, serve_result, Step, cancels, serving_ends, ends, stops, shut_down,
  overruns, drains,
}
use deploy_os.Runtime.HttpServer.Rank.{measure, Step-measure, start-measure}
use deploy_os.Runtime.HttpServer.Invariant.{Inv, IsOutcome, Step-Inv, start-Inv}

-- A step that leaves the context as it is.
pub record Advance (s : Run) : Type 0 where
  pub after : Run
  pub step : Step s after
  pub kept : after.canceled ≡ s.canceled

-- Run goes on, once its context is canceled, until it returns.
pub Inv-progress :
    (s : Run)
    → Inv s
    → s.canceled ≡ true
    → (p : Point) → s.point ≡ p
    → ((r : Option GoError) → ¬ (p ≡ returned r))
    → Advance s
Inv-progress s v c selecting e n = record {
  after = record s { point = stopping };
  step = stops e c refl;
  kept = refl;
}
Inv-progress s v c stopping e n = record {
  after = record s { point = draining };
  step = shut_down e refl;
  kept = refl;
}
Inv-progress s v c draining e n = drain s.goroutine refl
  where
    drain : (g : Goroutine) → s.goroutine ≡ g → Advance s
    drain listening q = record {
      after = record s {
        goroutine = finished;
        channel = s.channel ++ (serve_result (sentinel err_server_closed) ∷ []);
      };
      step = serving_ends (sentinel err_server_closed) q (λ b. rw e tt) refl;
      kept = refl;
    }
    drain finished q =
        let fits : Fits finished s.channel draining = rw (q, e) at v.fits in
        record {
          after = record s { channel = []; point = returned fits.0 };
          step = drains fits.0 [] e fits.1 refl;
          kept = refl;
        }
Inv-progress s v c (returned r) e n = absurd (n r refl)

run-Inv : (canceled : Bool) (n : ℕ) (t : Run) → Steps Step n (start canceled) t → Inv t
run-Inv canceled n t steps = Steps-invariant Step Inv Step-Inv steps (start-Inv canceled)

-- A run of the HTTP server takes at most five steps in whatever order; and at any time its
-- context is not canceled, or Run has returned, or a further step can be taken, which leaves the
-- context as it is.
pub run_ends :
    (canceled : Bool) (n : ℕ) (t : Run)
    → Steps Step n (start canceled) t
    → (n ≤ 5)
      × ((t.canceled ≡ false)
          ⊎ (((r : Option GoError) × (t.point ≡ returned r))
              ⊎ ((u : Run) × Step t u × (u.canceled ≡ t.canceled))))
run_ends canceled n t steps =
    let few = Steps-measure Step measure Step-measure steps in
    let most = start-measure canceled in
    (
      omega (arith, few, most),
      elim (Bool-cases t.canceled) [
        | inr serving ↦ inl serving
        | inl c ↦ inr (elim (point-cases t.point) [
          | inl (r, e) ↦ inl (r, e)
          | inr running ↦
              let a = Inv-progress t (run-Inv canceled n t steps) c t.point refl running in
              inr (a.after, a.step, a.kept)
        ])
      ],
    )

-- When Run of the HTTP server has returned, its result is nil, from a server whose context was
-- canceled, the error of ListenAndServe, which is not ErrServerClosed, or that of Shutdown, with
-- the context canceled; and a goroutine that still serves has sent nothing.
pub run_result :
    (canceled : Bool) (n : ℕ) (t : Run) (r : Option GoError)
    → Steps Step n (start canceled) t
    → t.point ≡ returned r
    → IsOutcome t.canceled r × (t.goroutine ≡ listening → t.channel ≡ [])
run_result canceled n t r steps e =
    let v = run-Inv canceled n t steps in (rw e at v.gave, λ g. rw g at v.fits)

-- A Run that has returned does not return again.
pub returned-stays :
    (s t : Run) (r : Option GoError) → Step s t → s.point ≡ returned r → t.point ≡ returned r
returned-stays s t r (cancels c e) h = ap (λ (y : Run). y.point) e ∙ h
returned-stays s t r (serving_ends er g c e) h = ap (λ (y : Run). y.point) e ∙ h
returned-stays s t r (ends o rest p c e) h = let bad = sym p ∙ h in cc
returned-stays s t r (stops p c e) h = let bad = sym p ∙ h in cc
returned-stays s t r (shut_down p e) h = let bad = sym p ∙ h in cc
returned-stays s t r (overruns er p e) h = let bad = sym p ∙ h in cc
returned-stays s t r (drains o rest p c e) h = let bad = sym p ∙ h in cc
