-- ===== src/Runtime/GrpcServer/Invariant.antt =====
-- internal/runtime/grpcserver.go: what holds of Run between its steps.
use deploy_os.Base.{
  ℕ, String, ◌≡◌, refl, sym, ◌∙◌, ◌⊎◌, inl, inr, Bool, true, Option, none, some, List, [], ◌∷◌,
}
use deploy_os.Go.Errors.{GoError}
use deploy_os.Runtime.{
  Steps, Steps-invariant, Goroutine, listening, finished, Point, selecting, stopping, draining,
  returned,
}
use deploy_os.Runtime.Channel.{
  Fits, Began, Held, Gave, Fits-send, Fits-take, Fits-stop, Fits-drain, Began-true, Began-finished,
  Began-take, Held-true, Gave-true, Began-stopped, Held-take,
}
use deploy_os.Runtime.GrpcServer.{
  Stopper, unstarted, graceful, closed, Run, start, listen_error, Step, cancels, serving_ends, ends,
  stops, graceful_ends, stopped, times_out, drains,
}

-- A result of Run: nil, from a server that was stopped, or an error.
pub data IsOutcome (canceled : Bool) (r : Option GoError) : Type 0 where
  clean : canceled ≡ true → r ≡ none → IsOutcome canceled r
  failed : (e : GoError) → r ≡ some e → IsOutcome canceled r

-- Where Run stands, and its two ways to stop.
abbrev pub Stops : Point → Stopper → Bool → Type 0
Stops selecting u forced = u ≡ unstarted
Stops stopping u forced = ¬ (u ≡ unstarted)
Stops draining u forced = ¬ (u ≡ unstarted) × (u ≡ graceful → forced ≡ true)
Stops (returned r) u forced = u ≡ graceful → forced ≡ true

-- The serving goroutine is done when Run has returned.
abbrev pub Over : Point → Goroutine → Type 0
Over (returned r) g = g ≡ finished
Over _ g = Unit

pub record Inv (s : Run) : Type 0 where
  pub fits : Fits s.goroutine s.channel s.point
  pub began : Began s.goroutine s.canceled s.point
  pub held : Held IsOutcome s.canceled s.channel
  pub gave : Gave IsOutcome s.canceled s.point
  pub ways : Stops s.point s.stopper s.forced
  pub over : Over s.point s.goroutine

IsOutcome-true : (b : Bool) (r : Option GoError) → IsOutcome b r → IsOutcome true r
IsOutcome-true b r (clean c e) = clean refl e
IsOutcome-true b r (failed er e) = failed er e

unstarted-ne-graceful : ¬ (unstarted ≡ graceful)
unstarted-ne-graceful u = cc

Over-finished : (p : Point) → Over p finished
Over-finished selecting = tt
Over-finished stopping = tt
Over-finished draining = tt
Over-finished (returned r) = refl

sent-finished :
    (g : Goroutine) (c rest : List (Option GoError)) (p : Point) (r : Option GoError)
    → Fits g c p
    → c ≡ r ∷ rest
    → g ≡ finished
sent-finished listening c rest p r f e = cc
sent-finished finished c rest p r f e = refl

pub start-Inv :
    (addr : String) (bound : Option GoError) (canceled : Bool) → Inv (start addr bound canceled)
unfolding start
start-Inv addr (some e) canceled = record {
  fits = tt;
  began = tt;
  held = tt;
  gave = failed (listen_error addr e) refl;
  ways = λ u. absurd (unstarted-ne-graceful u);
  over = refl;
}
start-Inv addr none canceled = record {
  fits = refl;
  began = tt;
  held = tt;
  gave = tt;
  ways = refl;
  over = tt;
}

served-IsOutcome : (r : Option GoError) (b : Bool) → (r ≡ none → b ≡ true) → IsOutcome b r
served-IsOutcome none b h = clean (h refl) refl
served-IsOutcome (some e) b h = failed e refl

Stops-take :
    (p : Point) (u : Stopper) (f : Bool) (r : Option GoError)
    → (p ≡ selecting) ⊎ (p ≡ draining)
    → Stops p u f
    → Stops (returned r) u f
Stops-take p u f r (inl e) h g =
    let h' : u ≡ unstarted = rw e at h in absurd (unstarted-ne-graceful (sym h' ∙ g))
Stops-take p u f r (inr e) h g =
    let h' : ¬ (u ≡ unstarted) × (u ≡ graceful → f ≡ true) = rw e at h in h'.1 g

Stops-closed : (p : Point) (f : Bool) → Stops p graceful f → Stops p closed f
Stops-closed selecting f h = cc
Stops-closed stopping f h = λ e. cc
Stops-closed draining f h = (λ e. cc, λ e. cc)
Stops-closed (returned r) f h = λ e. cc

taken-Inv :
    (r : Option GoError) (rest : List (Option GoError)) (s : Run)
    → s.channel ≡ r ∷ rest
    → (s.point ≡ selecting) ⊎ (s.point ≡ draining)
    → Inv s
    → Inv (record s { channel = rest; point = returned r })
taken-Inv r rest s c p v =
    let (outcome, later) = Held-take IsOutcome s.canceled s.channel rest r c v.held in
    record {
      fits = Fits-take s.goroutine s.channel rest s.point r v.fits c;
      began = Began-take s.goroutine s.canceled s.channel rest s.point r v.fits c;
      held = later;
      gave = outcome;
      ways = Stops-take s.point s.stopper s.forced r p v.ways;
      over = sent-finished s.goroutine s.channel rest s.point r v.fits c;
    }

-- The context may be canceled at any time.
pub cancel-Inv : (s : Run) → Inv s → Inv (record s { canceled = true })
cancel-Inv s v = record {
  fits = v.fits;
  began = Began-true s.goroutine s.point;
  held = Held-true IsOutcome IsOutcome-true s.canceled s.channel v.held;
  gave = Gave-true IsOutcome IsOutcome-true s.canceled s.point v.gave;
  ways = v.ways;
  over = v.over;
}

pub Step-Inv : (s t : Run) → Step s t → Inv s → Inv t
Step-Inv s t (cancels c e) v = rw e (cancel-Inv s v)
Step-Inv s t (serving_ends r g c e) v =
    let vacant : s.channel ≡ [] = rw g at v.fits in
    let began : Began listening s.canceled s.point = rw g at v.began in
    rw e (record {
      fits = Fits-send s.channel s.point r vacant;
      began = Began-finished s.goroutine s.canceled s.point v.began;
      held =
          rw vacant
            (served-IsOutcome r s.canceled (λ q. Began-stopped s.canceled s.point began (c q)), tt);
      gave = v.gave;
      ways = v.ways;
      over = Over-finished s.point;
    })
Step-Inv s t (ends r rest p c e) v = rw e (taken-Inv r rest s c (inl p) v)
Step-Inv s t (stops p c u e) v = rw e (record {
  fits = Fits-stop s.goroutine s.channel s.point p v.fits;
  began = c;
  held = v.held;
  gave = tt;
  ways = λ q. cc;
  over = tt;
})
Step-Inv s t (graceful_ends u e) v = rw e (record {
  fits = v.fits;
  began = v.began;
  held = v.held;
  gave = v.gave;
  ways = Stops-closed s.point s.forced (rw u at v.ways);
  over = v.over;
})
Step-Inv s t (stopped p u e) v =
    let ways : ¬ (s.stopper ≡ unstarted) = rw p at v.ways in
    rw e (record {
      fits = Fits-drain s.goroutine s.channel s.point p v.fits;
      began = rw p at v.began;
      held = v.held;
      gave = tt;
      ways = (ways, λ q. cc);
      over = tt;
    })
Step-Inv s t (times_out p e) v =
    let ways : ¬ (s.stopper ≡ unstarted) = rw p at v.ways in
    rw e (record {
      fits = Fits-drain s.goroutine s.channel s.point p v.fits;
      began = rw p at v.began;
      held = v.held;
      gave = tt;
      ways = (ways, λ q. refl);
      over = tt;
    })
Step-Inv s t (drains r rest p c e) v = rw e (taken-Inv r rest s c (inr p) v)

pub run-Inv :
    (addr : String) (bound : Option GoError) (canceled : Bool) (n : ℕ) (t : Run)
    → Steps Step n (start addr bound canceled) t
    → Inv t
run-Inv addr bound canceled n t steps =
    Steps-invariant Step Inv Step-Inv steps (start-Inv addr bound canceled)
