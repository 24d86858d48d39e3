-- ===== src/Fleet/Network/Outcome.antt =====
-- What every call of Send returns, in every run of the network.
use deploy_os.Base.{ℕ, String, ◌≡◌, some}
use deploy_os.Go.Errors.{GoError}
use mathlib.Core.List.{Memᴰ}
use deploy_os.Proto.{Envelope, command_request}
use deploy_os.CommandBus.Wire.{Request, command_of}
use deploy_os.CommandBus.Dispatcher.{Dispatcher}
use deploy_os.CommandBus.Service.{Call, envelope}
use deploy_os.Fleet.Network.{Network, Reach}
use deploy_os.Fleet.Network.Moves.{IsOutcome}
use deploy_os.Fleet.Network.Sound.{Reach-Sound}

module _ (Allowed : String → Request → Type 0) (Runs : String → Dispatcher → Type 0)
    (IsDone : GoError → Type 0) where
  -- In every run of the network, in which the envelopes of the calls and of the devices may be
  -- lost, repeated and reordered and each device may change its dispatcher, a call of Service.Send
  -- that has returned gave the response that some dispatcher of its own device makes of its own
  -- request under its own id, or the error that the device is not connected, or the error of a
  -- context that ended.
  pub calls_return-IsOutcome :
      {n : Network} (run : Reach Allowed Runs IsDone n) (k : ℕ) (c : Call)
      → n.service.calls k ≡ some c
      → IsOutcome Allowed Runs IsDone c c.phase
  calls_return-IsOutcome run k c e = (Reach-Sound Allowed Runs IsDone run).fine.outcomes k c e

  -- An envelope that was handed to the streams of a device is the command of a call to it, which was allowed.
  pub command-Allowed :
      {n : Network} (run : Reach Allowed Runs IsDone n) (device_id : String) (e : Envelope)
      → Memᴰ (device_id, e) n.down
      → (id : String) × (req : Request) × (e ≡ command_request (command_of id req))
        × Allowed device_id req
  unfolding envelope
  command-Allowed {n} run device_id e m =
      let v = Reach-Sound Allowed Runs IsDone run in
      let (k, c, (p, at), to, is_it) = v.down device_id e m in
      (c.id, c.request, is_it, rw to at (v.fine.allowed k (record c { phase = p }) at))
