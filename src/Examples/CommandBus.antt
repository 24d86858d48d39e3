-- ===== src/Examples/CommandBus.antt =====
-- The Command Bus at concrete inputs.
use deploy_os.Base.{String, ◌≡◌, refl, true, false, none, some, [], ◌∷◌, ◌==◌}
use deploy_os.Go.Errors.{Sentinel, GoError, sentinel, is, err}
use deploy_os.Proto.{CommandResult, command_response}
use deploy_os.Go.Map.{lookup}
use deploy_os.CommandBus.Wire.{Request, Response}
use deploy_os.CommandBus.Dispatcher.{Dispatcher, returns, panics, new_dispatcher, register}
use deploy_os.CommandBus.Service.Correlation.{Handled, handle_result-Handled, sends_error}
use deploy_os.CommandBus.Service.{
  err_device_not_connected, Phase, registered, waiting, returned, Call, Service, new_service,
  not_connected, handle_result, begins, sends, results, step, Reach, here, next,
}

abbrev pub ping : Request
ping = record { id = ""; kind = "PING"; arguments = [] }

abbrev pub pong : Response
pong = record { command_id = "c-1"; success = true; message = "pong"; details = ("k", "v") ∷ [] }

abbrev pub agent : Dispatcher
agent = register "PING" (λ r. returns pong) (register "BAD" (λ r. panics) new_dispatcher)

abbrev answer : CommandResult
answer = record { command_id = "c-1"; success = true; message = "pong"; details = none }

abbrev pub sent : Service
sent = step (sends 0 none) (step (begins "c-1" "laptop" ping) new_service)

pub sent_reached : Reach sent
sent_reached =
    next (next here (begins "c-1" "laptop" ping) (λ k. unfold new_service in λ h. elim h [ ]))
      (sends 0 none) tt

abbrev pub call : Phase → Call
call p = record { id = "c-1"; device_id = "laptop"; request = ping; phase = p }

pub sent_calls : sent.calls 0 ≡ some (call waiting)
unfolding step new_service
sent_calls = refl

pub sent_empty : sent.channels 0 ≡ []
unfolding step new_service
sent_empty = refl

abbrev answered : Service
answered = step (results "laptop" (command_response answer)) sent

answered_reached : Reach answered
answered_reached = next sent_reached (results "laptop" (command_response answer)) tt

handle_result-Handled_example :
    Handled answer sent (handle_result "laptop" (command_response answer) sent)
handle_result-Handled_example = handle_result-Handled sent_reached "laptop" answer

-- The Sender's error, and what the call returns.
abbrev offline : GoError
offline =
    sentinel
      (record { name = "connection.ErrDeviceNotConnected"; text = "device is not connected" })

sends_error_example :
    let s = step (begins "c-1" "laptop" ping) new_service in
    let t = step (sends 0 (some offline)) s in
    (t.calls 0 ≡ some (call (returned (err (not_connected offline)))))
    × ((target : Sentinel)
        → is (not_connected offline) target ≡ (err_device_not_connected.name == target.name))
    × (lookup "c-1" t.pending ≡ none)
    × ((id : String) → ("c-1" == id) ≡ false → lookup id t.pending ≡ lookup id s.pending)
    × (t.channels ≡ s.channels)
unfolding step new_service
sends_error_example =
    sends_error 0 (call registered) offline (step (begins "c-1" "laptop" ping) new_service) refl
      refl
