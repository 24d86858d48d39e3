-- ===== src/Runtime.antt =====
-- internal/runtime: running a server until its context is canceled, and shutting it down. What both servers share:
-- sequences of steps, the channel of capacity 1 that carries the end of the serving goroutine, and that
-- a step that lowers a measure ends.
pub mod Channel
pub mod HttpServer
pub mod GrpcServer
pub mod Group
use deploy_os.Base.{
  ℕ, zero, suc, ◌+◌, ◌≤◌, ◌<◌, ◌≡◌, refl, ◌⊎◌, inl, inr, Bool, true, false, Option, arith, keep,
}
use deploy_os.Go.Errors.{GoError}

-- DefaultShutdownTimeout, in nanoseconds
abbrev pub default_shutdown_timeout : ℕ
default_shutdown_timeout = 10_000_000_000

-- A run of n steps.
pub data Steps {S : Type 0} (R : S → S → Type 0) : ℕ → S → S → Type 0 where
  stop : (s : S) → Steps R zero s s
  go : {n : ℕ} {s t u : S} → R s t → Steps R n t u → Steps R (suc n) s u

pub Steps-measure :
    {S : Type 0} (R : S → S → Type 0) (measure : S → ℕ)
    → ((s t : S) → R s t → measure t < measure s)
    → {n : ℕ} {s t : S} → Steps R n s t
    → n + measure t ≤ measure s
Steps-measure R measure lower (stop s) = omega arith
Steps-measure R measure lower (go {s = s} {t = t} r rest) =
    omega (arith, lower s t r, Steps-measure R measure lower rest)

pub Steps-invariant :
    {S : Type 0} (R : S → S → Type 0) (P : S → Type 0)
    → ((s t : S) → R s t → P s → P t)
    → {n : ℕ} {s t : S} → Steps R n s t
    → P s
    → P t
Steps-invariant R P keep (stop s) h = h
Steps-invariant R P keep (go {s = s} {t = t} r rest) h =
    Steps-invariant R P keep rest (keep s t r h)

-- The goroutine that serves: in the call that serves, or done.
pub data Goroutine : Type 0 where
  listening finished : Goroutine

-- Where Run stands.
pub data Point : Type 0 where
  -- the first select
  selecting : Point
  -- in the shutdown
  stopping : Point
  -- the last receive from errCh
  draining : Point
  returned : Option GoError → Point

-- The shutdown has begun.
abbrev pub IsStopped : Point → Type 0
IsStopped selecting = ⊥
IsStopped p = Unit

-- The steps that are left at most.
abbrev pub point_rank : Point → ℕ
point_rank selecting = 3
point_rank stopping = 2
point_rank draining = 1
point_rank (returned r) = 0

abbrev pub goroutine_rank : Goroutine → ℕ
goroutine_rank listening = 1
goroutine_rank finished = 0

abbrev pub canceled_rank : Bool → ℕ
canceled_rank true = 0
canceled_rank false = 1

pub point-cases :
    (p : Point)
    → ((r : Option GoError) × (p ≡ returned r)) ⊎ ((r : Option GoError) → ¬ (p ≡ returned r))
point-cases selecting = inr (λ r e. cc)
point-cases stopping = inr (λ r e. cc)
point-cases draining = inr (λ r e. cc)
point-cases (returned r) = inl (r, refl)
