-- ===== src/CommandBus/Dispatcher.antt =====
-- internal/commandbus/dispatcher.go and wire.go: the agent's routing of a command to its executor.
use deploy_os.Base.{
  String, concat, ◌≡◌, refl, inl, inr, false, Option, none, some, List, [], ◌∷◌, arith, ◌==◌,
  if◌then◌else◌, Bool-cases,
}
use deploy_os.Proto.{Command, CommandResult}
use deploy_os.Go.Map.{lookup, insert, lookup-insert}
use deploy_os.Go.Text.{quote}
use deploy_os.CommandBus.Wire.{Request, Response, request_from_proto, response_to_proto}

-- What an executor's Execute does: it returns, or it panics.
pub data Outcome : Type 0 where
  returns : Response → Outcome
  panics : Outcome

pub record Dispatcher : Type 0 where
  pub executors : List (String × (Request → Outcome))

-- NewDispatcher
unfoldable pub new_dispatcher : Dispatcher
new_dispatcher = record { executors = [] }

-- Dispatcher.Register
unfoldable pub register : String → (Request → Outcome) → Dispatcher → Dispatcher
register kind executor d = record { executors = insert kind executor d.executors }

abbrev pub failure : String → String → Response
failure command_id message = record {
  command_id = command_id;
  success = false;
  message = message;
  details = [];
}

-- The deferred recover, or the response under the request's id.
unfoldable pub finish : Request → Outcome → Response
finish req (returns resp) = record resp { command_id = req.id }
finish req panics = failure req.id "internal error handling command"

-- The executor found for the kind, or none.
unfoldable pub execute : Request → Option (Request → Outcome) → Response
unfolding finish quote
execute req none = failure req.id (concat ("unknown command kind " ∷ quote req.kind ∷ []))
execute req (some executor) = finish req (executor req)

-- Dispatcher.Dispatch
unfoldable pub dispatch : Dispatcher → Request → Response
unfolding execute
dispatch d req = execute req (lookup req.kind d.executors)

-- WireHandler
unfoldable pub wire_handler : Dispatcher → Command → CommandResult
unfolding dispatch request_from_proto response_to_proto
wire_handler d cmd = response_to_proto (dispatch d (request_from_proto cmd))

-- What a registration changes.
pub dispatch-register :
    (kind : String) (executor : Request → Outcome) (d : Dispatcher) (req : Request)
    → dispatch (register kind executor d) req
      ≡ (if kind == req.kind then finish req (executor req) else dispatch d req)
unfolding dispatch register
dispatch-register kind executor d req =
    rw (lookup-insert kind req.kind executor d.executors)
      (elim (Bool-cases (kind == req.kind)) [ inl e ↦ rw e | inr e ↦ rw e ])

execute-command_id :
    (req : Request) (o : Option (Request → Outcome)) → (execute req o).command_id ≡ req.id
unfolding execute
execute-command_id req none = refl
execute-command_id req (some executor) = ground arith

-- Dispatch answers every request with a response under the request's own id, whatever id the
-- executor sets; the response is a failure where the kind is unknown or the executor panics.
pub dispatch_answers :
    (d : Dispatcher) (req : Request)
    → ((dispatch d req).command_id ≡ req.id)
      × (lookup req.kind d.executors ≡ none → (dispatch d req).success ≡ false)
      × ((executor : Request → Outcome)
          → lookup req.kind d.executors ≡ some executor
          → executor req ≡ panics
          → (dispatch d req).success ≡ false)
unfolding dispatch
dispatch_answers d req =
    (execute-command_id req (lookup req.kind d.executors), λ e. rw e, λ executor e p. rw (e, p))

-- The result of a command that arrives on the connection carries the command's id.
pub wire_handler-command_id :
    (d : Dispatcher) (cmd : Command) → (wire_handler d cmd).command_id ≡ cmd.id
unfolding wire_handler
wire_handler-command_id d cmd = (dispatch_answers d (request_from_proto cmd)).0
