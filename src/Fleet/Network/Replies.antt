-- ===== src/Fleet/Network/Replies.antt =====
-- internal/commandbus/handler.go behind the network: what the caller of a command is told.
use deploy_os.Base.{ℕ, String, ◌≡◌, refl, ap, ◌⊎◌, inl, inr, some}
use deploy_os.Go.Errors.{Sentinel, GoError, sentinel, is, Result, ok, err}
use deploy_os.Auth.{Reply, success, failure}
use deploy_os.CommandBus.Wire.{Request, Response}
use deploy_os.CommandBus.Dispatcher.{Dispatcher}
use deploy_os.CommandBus.Service.{Call, returned, not_connected}
use deploy_os.CommandBus.Handler.{answer, deadline_exceeded}
use deploy_os.Fleet.Command.{response_for}
use deploy_os.Fleet.Network.{Network, Reach}
use deploy_os.Fleet.Network.Moves.{IsOutcome}
use deploy_os.Fleet.Network.Outcome.{calls_return-IsOutcome}

-- context.Canceled
abbrev pub context_canceled : Sentinel
context_canceled = record { name = "context.Canceled"; text = "context canceled" }

-- The request's context ends by its timeout, or because the caller has gone.
abbrev pub IsContextError : GoError → Type 0
IsContextError e = (e ≡ sentinel deadline_exceeded) ⊎ (e ≡ sentinel context_canceled)

-- What the handler writes for a call, by what Service.Send returned.
pub data IsTold (Runs : String → Dispatcher → Type 0) (c : Call) (r : Result Response)
    (reply : Reply Response) : Type 0 where
  told_response :
      (d : Dispatcher)
      → Runs c.device_id d
      → r ≡ ok (response_for d c)
      → reply ≡ success 200 (response_for d c)
      → IsTold Runs c r reply
  -- by the cause that the Sender reported
  told_offline :
      (cause : GoError)
      → r ≡ err (not_connected cause)
      → reply ≡ failure 503 "device is not connected"
      → IsTold Runs c r reply
  told_timeout :
      r ≡ err (sentinel deadline_exceeded)
      → reply ≡ failure 504 "command timed out waiting for a response"
      → IsTold Runs c r reply
  -- nobody reads it
  told_nobody :
      r ≡ err (sentinel context_canceled)
      → reply ≡ failure 500 "internal error"
      → IsTold Runs c r reply

module _ (Allowed : String → Request → Type 0) (Runs : String → Dispatcher → Type 0) where
  outcome-IsTold :
      (c : Call) (r : Result Response)
      → IsOutcome Allowed Runs IsContextError c (returned r)
      → IsTold Runs c r (answer r)
  unfolding answer is not_connected
  outcome-IsTold c (ok r) (d, runs, q) = told_response d runs (ap ok q) (rw q refl)
  outcome-IsTold c (err e) (inl (cause, q)) = told_offline cause (ap err q) (rw q refl)
  outcome-IsTold c (err e) (inr (inl q)) = told_timeout (ap err q) (rw q refl)
  outcome-IsTold c (err e) (inr (inr q)) = told_nobody (ap err q) (rw q refl)

  -- In every run of the network in which the contexts of the calls end by their timeout or by
  -- cancellation, a call of Service.Send that has returned gave one of four results, and the HTTP
  -- handler writes what belongs to it: 200 with the response, which is the one that some
  -- dispatcher of the call's device makes of the call's request; 503 with "device is not
  -- connected" for the error that wraps ErrDeviceNotConnected; 504 with "command timed out waiting
  -- for a response" for the end of the timeout; and 500 with "internal error" for a cancellation.
  pub callers-IsTold :
      {n : Network} (run : Reach Allowed Runs IsContextError n) (k : ℕ) (c : Call)
      (r : Result Response)
      → n.service.calls k ≡ some c
      → c.phase ≡ returned r
      → IsTold Runs c r (answer r)
  callers-IsTold run k c r e p =
      outcome-IsTold c r (rw p at (calls_return-IsOutcome Allowed Runs IsContextError run k c e))
