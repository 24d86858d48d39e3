-- ===== src/Examples/Network.antt =====
-- A run of the network, in which a device answers one command twice.
use deploy_os.Base.{ℕ, String, ◌≡◌, refl, none, some, List, [], ◌∷◌}
use deploy_os.Go.Errors.{ok}
use mathlib.Core.List.Memᴰ
use deploy_os.Proto.{Envelope, command_response, get_command_request}
use deploy_os.CommandBus.Wire.{
  command_of, Request, Response, response_of, response_to_proto, request_from_proto,
}
use deploy_os.Fleet.Network.Once.{Distinct, Unsent, commands-Distinct}
use deploy_os.Fleet.Network.Replies.{IsContextError, IsTold, callers-IsTold}
use deploy_os.Fleet.Network.Owners.{IsAsked}
use deploy_os.Examples.Access
use deploy_os.Examples.Access.{ping_request, ann_sends}
use deploy_os.Examples.Devices.{directory, table, table-IsTable}
use deploy_os.CommandBus.Dispatcher.{Dispatcher, wire_handler, dispatch, register, new_dispatcher}
use deploy_os.CommandBus.Handler.{answer}
use deploy_os.CommandBus.Service
use deploy_os.CommandBus.Service.{
  Phase, waiting, Call, Service, returned, registered, new_service, envelope, handle_result,
}
use deploy_os.Fleet.Command.{answers, response_for}
use deploy_os.Fleet.Network.{
  Network, Step, begins, transmits, executes, handles, receives, Reach, here, next,
}
use deploy_os.Fleet.Network.Moves.{IsOutcome}
use deploy_os.Fleet.Network.Outcome.{calls_return-IsOutcome}
use deploy_os.Examples.CommandBus.{ping, agent, call}

abbrev Allowed : String → Request → Type 0
Allowed id req = (id ≡ "laptop") × (req ≡ ping)

abbrev Runs : String → Dispatcher → Type 0
Runs id d = (id ≡ "laptop") × (d ≡ agent)

-- The answer of the device.
abbrev reply : Envelope
reply = command_response (response_to_proto (response_for agent (call waiting)))

abbrev asked : Network
asked = record {
  service =
      Service.step (Service.sends 0 none)
        (Service.step (Service.begins "c-1" "laptop" ping) new_service);
  down = ("laptop", envelope (call registered)) ∷ [];
  up = [];
}

asked_run : Reach Allowed Runs IsContextError asked
unfolding Service.step new_service
asked_run =
    next
      (next here
        (begins "c-1" "laptop" ping (λ k. unfold new_service in λ h. elim h [ ]) (refl, refl)))
      (transmits 0 (call registered) none refl refl)

abbrev answered : Network
answered = record asked { up = ("laptop", reply) ∷ ("laptop", reply) ∷ [] }

sent_reply : answers (wire_handler agent) (envelope (call registered) ∷ []) ≡ reply ∷ []
unfolding answers deploy_os.Connection.Client.received get_command_request envelope
    response_to_proto wire_handler deploy_os.CommandBus.Wire.command_of
sent_reply = refl

answered_run : Reach Allowed Runs IsContextError answered
answered_run = next (next asked_run again) again
  where
    again :
        {up : List (String × Envelope)}
        → Step Allowed Runs IsContextError
            (record asked { up = up })
            (record asked { up = ("laptop", reply) ∷ up })
    again =
        executes "laptop" (envelope (call registered)) reply agent (Memᴰ.head refl) (refl, refl)
          (rw sent_reply (Memᴰ.head refl))

-- Both answers are handled, and the call receives.
abbrev ended : Network
ended = record answered {
  service = Service.step (Service.receives 0) (
      Service.step (Service.results "laptop" reply)
        (Service.step (Service.results "laptop" reply) asked.service));
}

ended_run : Reach Allowed Runs IsContextError ended
ended_run =
    next
      (next (next answered_run (handles "laptop" reply (Memᴰ.head refl)))
        (handles "laptop" reply (Memᴰ.head refl)))
      (receives 0)

calls_return-IsOutcome_example :
    let got = call (returned (ok (response_for agent (call waiting)))) in
    IsOutcome Allowed Runs IsContextError got got.phase
unfolding Service.step new_service deploy_os.Go.Map.lookup deploy_os.Go.Map.insert response_to_proto
    dispatch register new_dispatcher deploy_os.Go.Map.delete response_of
calls_return-IsOutcome_example =
    calls_return-IsOutcome Allowed Runs IsContextError ended_run 0
      (call (returned (ok (response_for agent (call waiting))))) refl

-- A command of the HTTP handler.
abbrev asked_call : Call
asked_call = record { id = "c-1"; device_id = "d-1"; request = ping_request; phase = registered }

IsAsked-by_ann : IsAsked directory "d-1" ping_request
IsAsked-by_ann = record {
  header = "Bearer ann";
  device_id = "d-1";
  body = some Access.ping;
  db = table;
  table = table-IsTable;
  in_reach = refl;
  planned = ann_sends;
}

abbrev commanded : Network
commanded = record {
  service =
      Service.step (Service.sends 0 none)
        (Service.step (Service.begins "c-1" "d-1" ping_request) new_service);
  down = ("d-1", envelope asked_call) ∷ [];
  up = [];
}

commanded_run : Reach (IsAsked directory) Runs IsContextError commanded
unfolding Service.step new_service
commanded_run =
    next
      (next here (
        begins "c-1" "d-1" ping_request (λ k. unfold new_service in λ h. elim h [ ])
          IsAsked-by_ann))
      (transmits 0 asked_call none refl refl)

commands-Distinct_example :
    Distinct commanded.down
    × ((k : ℕ) (c : Call)
        → commanded.service.calls k ≡ some c
        → c.phase ≡ registered
        → Unsent commanded.down c)
commands-Distinct_example = commands-Distinct (IsAsked directory) Runs IsContextError commanded_run

callers-IsTold_example :
    let got = returned (ok (response_for agent (call waiting))) in
    IsTold Runs
      (call got)
      (ok (response_for agent (call waiting)))
      (answer (ok (response_for agent (call waiting))))
unfolding Service.step new_service deploy_os.Go.Map.lookup deploy_os.Go.Map.insert response_to_proto
    dispatch register new_dispatcher deploy_os.Go.Map.delete response_of
callers-IsTold_example =
    callers-IsTold Allowed Runs ended_run 0
      (call (returned (ok (response_for agent (call waiting)))))
      (ok (response_for agent (call waiting))) refl refl
