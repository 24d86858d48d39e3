-- ===== src/Fleet/Network.antt =====
-- internal/commandbus/service.go, internal/connection and the agents together: calls of Service.Send, the messages between them
-- and the devices, and what the devices answer. A message that was once sent may arrive any number of times, in any
-- order, or never, so that lost streams and reconnections are among the runs. There are more runs than the program
-- has, since a message of a lost stream may still arrive: what holds in each of them holds of the program, but that
-- something can happen here does not say that it can there.
pub mod Moves
pub mod Messages
pub mod Sound
pub mod Outcome
pub mod Replies
pub mod Owners
pub mod Still
pub mod Once
use deploy_os.Base.{ℕ, String, ◌≡◌, Option, some, List, [], ◌∷◌}
use deploy_os.Go.Errors.{GoError}
use mathlib.Core.List.{Memᴰ}
use deploy_os.Proto.{Envelope}
use deploy_os.CommandBus.Wire.{Request}
use deploy_os.CommandBus.Dispatcher.{Dispatcher, wire_handler}
use deploy_os.CommandBus.Service
use deploy_os.CommandBus.Service.{Call, Service, new_service, registered, envelope, IsFresh}
use deploy_os.Fleet.Command.{answers}

pub record Network : Type 0 where
  pub service : Service
  -- the envelopes that were handed to the streams of the devices
  pub down : List (String × Envelope)
  -- the envelopes that the devices have sent
  pub up : List (String × Envelope)

abbrev pub new_network : Network
new_network = record { service = new_service; down = []; up = [] }

-- One step, where some requests are allowed, a device may run each of some dispatchers, and a context may end with each of some errors.
pub data Step (Allowed : String → Request → Type 0) (Runs : String → Dispatcher → Type 0)
    (IsDone : GoError → Type 0) (n : Network) : Network → Type 0 where
  begins :
      (id device_id : String) (req : Request)
      → IsFresh (Service.begins id device_id req) n.service
      → Allowed device_id req
      → Step Allowed Runs IsDone n
          (record n { service = Service.step (Service.begins id device_id req) n.service })
  -- the Sender's answer; on an error the envelope may have gone out all the same
  transmits :
      (k : ℕ) (c : Call) (answer : Option GoError)
      → n.service.calls k ≡ some c
      → c.phase ≡ registered
      → Step Allowed Runs IsDone n (record n {
        service = Service.step (Service.sends k answer) n.service;
        down = (c.device_id, envelope c) ∷ n.down;
      })
  -- a device reads an envelope and sends an answer to it
  executes :
      (device_id : String) (e reply : Envelope) (d : Dispatcher)
      → Memᴰ (device_id, e) n.down
      → Runs device_id d
      → Memᴰ reply (answers (wire_handler d) (e ∷ []))
      → Step Allowed Runs IsDone n (record n { up = (device_id, reply) ∷ n.up })
  handles :
      (device_id : String) (e : Envelope)
      → Memᴰ (device_id, e) n.up
      → Step Allowed Runs IsDone n
          (record n { service = Service.step (Service.results device_id e) n.service })
  receives :
      (k : ℕ)
      → Step Allowed Runs IsDone n
          (record n { service = Service.step (Service.receives k) n.service })
  cancels :
      (k : ℕ) (e : GoError)
      → IsDone e
      → Step Allowed Runs IsDone n
          (record n { service = Service.step (Service.cancels k e) n.service })

pub data Reach (Allowed : String → Request → Type 0) (Runs : String → Dispatcher → Type 0)
    (IsDone : GoError → Type 0) : Network → Type 0 where
  here : Reach Allowed Runs IsDone new_network
  next :
      {n t : Network}
      → Reach Allowed Runs IsDone n
      → Step Allowed Runs IsDone n t
      → Reach Allowed Runs IsDone t
