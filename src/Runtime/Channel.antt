-- ===== src/Runtime/Channel.antt =====
-- internal/runtime: the channel errCh of both servers, and what it, the goroutine that sends on it and Run agree on.
use deploy_os.Base.{◌≡◌, refl, Bool, true, Option, List, [], ◌∷◌, ◌++◌}
use deploy_os.Go.Errors.{GoError}
use deploy_os.Runtime.{
  Goroutine, listening, finished, Point, selecting, stopping, draining, returned, IsStopped,
}

-- The channel holds what the goroutine sent, until Run takes it.
abbrev pub Fits : Goroutine → List (Option GoError) → Point → Type 0
Fits listening c p = c ≡ []
Fits finished c (returned r) = Unit
Fits finished c _ = (r : Option GoError) × (c ≡ r ∷ [])

-- Behind the first select the context was canceled, unless Run returned what the goroutine failed with.
abbrev pub Began : Goroutine → Bool → Point → Type 0
Began g canceled selecting = Unit
Began finished canceled (returned r) = Unit
Began g canceled _ = canceled ≡ true

-- What the channel holds, and what Run returned, is what the server may return.
abbrev pub Held : (Bool → Option GoError → Type 0) → Bool → List (Option GoError) → Type 0
Held P canceled [] = Unit
Held P canceled (r ∷ rest) = P canceled r × Held P canceled rest

abbrev pub Gave : (Bool → Option GoError → Type 0) → Bool → Point → Type 0
Gave P canceled (returned r) = P canceled r
Gave P canceled _ = Unit

pub Fits-send :
    (c : List (Option GoError)) (p : Point) (x : Option GoError)
    → c ≡ []
    → Fits finished (c ++ (x ∷ [])) p
Fits-send c selecting x e = (x, rw e refl)
Fits-send c stopping x e = (x, rw e refl)
Fits-send c draining x e = (x, rw e refl)
Fits-send c (returned r) x e = tt

pub Fits-take :
    (g : Goroutine) (c rest : List (Option GoError)) (p : Point) (r : Option GoError)
    → Fits g c p
    → c ≡ r ∷ rest
    → Fits g rest (returned r)
Fits-take listening c rest p r h e = cc
Fits-take finished c rest p r h e = tt

pub Fits-stop :
    (g : Goroutine) (c : List (Option GoError)) (p : Point)
    → p ≡ selecting
    → Fits g c p
    → Fits g c stopping
Fits-stop listening c p e h = h
Fits-stop finished c selecting e h = h
Fits-stop finished c stopping e h = h
Fits-stop finished c draining e h = h
Fits-stop finished c (returned r) e h = cc

pub Fits-drain :
    (g : Goroutine) (c : List (Option GoError)) (p : Point)
    → p ≡ stopping
    → Fits g c p
    → Fits g c draining
Fits-drain listening c p e h = h
Fits-drain finished c selecting e h = h
Fits-drain finished c stopping e h = h
Fits-drain finished c draining e h = h
Fits-drain finished c (returned r) e h = cc

pub Fits-return :
    (g : Goroutine) (c : List (Option GoError)) (p : Point) (r : Option GoError)
    → Fits g c p
    → Fits g c (returned r)
Fits-return listening c p r h = h
Fits-return finished c p r h = tt

pub Began-true : (g : Goroutine) (p : Point) → Began g true p
Began-true g selecting = tt
Began-true g stopping = refl
Began-true g draining = refl
Began-true listening (returned r) = refl
Began-true finished (returned r) = tt

pub Began-finished : (g : Goroutine) (b : Bool) (p : Point) → Began g b p → Began finished b p
Began-finished g b selecting h = tt
Began-finished g b stopping h = h
Began-finished g b draining h = h
Began-finished g b (returned r) h = tt

pub Began-return :
    (g : Goroutine) (b : Bool) (r : Option GoError) → b ≡ true → Began g b (returned r)
Began-return listening b r h = h
Began-return finished b r h = tt

pub Began-take :
    (g : Goroutine) (b : Bool) (c rest : List (Option GoError)) (p : Point) (r : Option GoError)
    → Fits g c p
    → c ≡ r ∷ rest
    → Began g b (returned r)
Began-take listening b c rest p r f e = cc
Began-take finished b c rest p r f e = tt

-- A listening goroutine behind a call of Shutdown.
pub Began-stopped : (b : Bool) (p : Point) → Began listening b p → IsStopped p → b ≡ true
Began-stopped b selecting h k = absurd k
Began-stopped b stopping h k = h
Began-stopped b draining h k = h
Began-stopped b (returned r) h k = h

module _ (P : Bool → Option GoError → Type 0)
    (later : (b : Bool) (r : Option GoError) → P b r → P true r) where
  pub Held-true : (b : Bool) (c : List (Option GoError)) → Held P b c → Held P true c
  Held-true b [] h = tt
  Held-true b (r ∷ c) h = (later b r h.0, Held-true b c h.1)

  pub Gave-true : (b : Bool) (p : Point) → Gave P b p → Gave P true p
  Gave-true b selecting h = tt
  Gave-true b stopping h = tt
  Gave-true b draining h = tt
  Gave-true b (returned r) h = later b r h

module _ (P : Bool → Option GoError → Type 0) where
  pub Held-take :
      (b : Bool) (c rest : List (Option GoError)) (r : Option GoError)
      → c ≡ r ∷ rest
      → Held P b c
      → P b r × Held P b rest
  Held-take b c rest r e s = rw e at s
