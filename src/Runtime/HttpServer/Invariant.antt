-- ===== src/Runtime/HttpServer/Invariant.antt =====
-- internal/runtime/httpserver.go: what holds of Run between its steps.
use deploy_os.Base.{
  ◌≡◌, refl, inl, inr, Bool, true, false, Option, none, some, List, [], ◌∷◌, Bool-cases,
}
use deploy_os.Go.Errors.{GoError, wrap, is}
use deploy_os.Runtime.{listening, returned}
use deploy_os.Runtime.Channel.{
  Fits, Began, Held, Gave, Fits-send, Fits-take, Fits-stop, Fits-drain, Fits-return, Began-true,
  Began-finished, Began-return, Began-take, Held-true, Gave-true, Began-stopped, Held-take,
}
use deploy_os.Runtime.HttpServer.{
  err_server_closed, Run, start, serve_result, shutdown_error, Step, cancels, serving_ends, ends,
  stops, shut_down, overruns, drains,
}

-- A result of Run: nil, from a server that was shut down, the error of the listener, or that of Shutdown.
pub data IsOutcome (canceled : Bool) (r : Option GoError) : Type 0 where
  clean : canceled ≡ true → r ≡ none → IsOutcome canceled r
  failed :
      (e : GoError)
      → is e err_server_closed ≡ false
      → r ≡ some (wrap "http server: " e "")
      → IsOutcome canceled r
  overran : (e : GoError) → canceled ≡ true → r ≡ some (shutdown_error e) → IsOutcome canceled r

pub record Inv (s : Run) : Type 0 where
  pub fits : Fits s.goroutine s.channel s.point
  pub began : Began s.goroutine s.canceled s.point
  pub held : Held IsOutcome s.canceled s.channel
  pub gave : Gave IsOutcome s.canceled s.point

IsOutcome-true : (b : Bool) (r : Option GoError) → IsOutcome b r → IsOutcome true r
IsOutcome-true b r (clean c e) = clean refl e
IsOutcome-true b r (failed er n e) = failed er n e
IsOutcome-true b r (overran er c e) = overran er refl e

pub start-Inv : (canceled : Bool) → Inv (start canceled)
unfolding start
start-Inv canceled = record { fits = refl; began = tt; held = tt; gave = tt }

serve_result-IsOutcome :
    (e : GoError) (b : Bool)
    → (is e err_server_closed ≡ true → b ≡ true)
    → IsOutcome b (serve_result e)
unfolding serve_result
serve_result-IsOutcome e b h = elim (Bool-cases (is e err_server_closed)) [
  | inl q ↦ clean (h q) (rw q refl)
  | inr q ↦ failed e q (rw q refl)
]

taken-Inv :
    (r : Option GoError) (rest : List (Option GoError)) (s : Run)
    → s.channel ≡ r ∷ rest
    → Inv s
    → Inv (record s { channel = rest; point = returned r })
taken-Inv r rest s c v =
    let (outcome, later) = Held-take IsOutcome s.canceled s.channel rest r c v.held in
    record {
      fits = Fits-take s.goroutine s.channel rest s.point r v.fits c;
      began = Began-take s.goroutine s.canceled s.channel rest s.point r v.fits c;
      held = later;
      gave = outcome;
    }

-- The context may be canceled at any time.
pub cancel-Inv : (s : Run) → Inv s → Inv (record s { canceled = true })
cancel-Inv s v = record {
  fits = v.fits;
  began = Began-true s.goroutine s.point;
  held = Held-true IsOutcome IsOutcome-true s.canceled s.channel v.held;
  gave = Gave-true IsOutcome IsOutcome-true s.canceled s.point v.gave;
}

pub Step-Inv : (s t : Run) → Step s t → Inv s → Inv t
Step-Inv s t (cancels c e) v = rw e (cancel-Inv s v)
Step-Inv s t (serving_ends er g c e) v =
    let vacant : s.channel ≡ [] = rw g at v.fits in
    let began : Began listening s.canceled s.point = rw g at v.began in
    rw e (record {
      fits = Fits-send s.channel s.point (serve_result er) vacant;
      began = Began-finished s.goroutine s.canceled s.point v.began;
      held = rw vacant (
        serve_result-IsOutcome er s.canceled (λ q. Began-stopped s.canceled s.point began (c q)),
        tt,
      );
      gave = v.gave;
    })
Step-Inv s t (ends r rest p c e) v = rw e (taken-Inv r rest s c v)
Step-Inv s t (stops p c e) v = rw e (record {
  fits = Fits-stop s.goroutine s.channel s.point p v.fits;
  began = c;
  held = v.held;
  gave = tt;
})
Step-Inv s t (shut_down p e) v = rw e (record {
  fits = Fits-drain s.goroutine s.channel s.point p v.fits;
  began = rw p at v.began;
  held = v.held;
  gave = tt;
})
Step-Inv s t (overruns er p e) v =
    let canceled : s.canceled ≡ true = rw p at v.began in
    rw e (record {
      fits = Fits-return s.goroutine s.channel s.point (some (shutdown_error er)) v.fits;
      began = Began-return s.goroutine s.canceled (some (shutdown_error er)) canceled;
      held = v.held;
      gave = overran er canceled refl;
    })
Step-Inv s t (drains r rest p c e) v = rw e (taken-Inv r rest s c v)
