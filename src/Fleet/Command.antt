-- ===== src/Fleet/Command.antt =====
-- internal/commandbus/service.go through internal/connection/client.go and internal/commandbus/wire.go, and back: a command on
-- its way to a device and its result's way to the caller.
use deploy_os.Base.{ℕ, String, ◌≡◌, refl, sym, ap, ◌∙◌, true, some, List, [], ◌∷◌, map, arith}
use deploy_os.Go.Errors.{ok}
use deploy_os.Proto.{Command, CommandResult, Envelope, command_response, get_command_request}
use deploy_os.Go.Map.{lookup}
use deploy_os.CommandBus.Wire.{Response, response_to_proto, wire_round_trip}
use deploy_os.CommandBus.Dispatcher.{Dispatcher, dispatch, wire_handler, dispatch_answers}
use deploy_os.CommandBus.Service.{
  Call, Service, waiting, returned, envelope, step, receives, results, Reach, next, handle_result,
  delivered,
}
use deploy_os.CommandBus.Service.Steps.{Reach-Inv}
use deploy_os.CommandBus.Service.Correlation.{unknown, matched, handle_result-Handled, receives_own}
use deploy_os.Connection.Client.{received}
use deploy_os.Connection.Client.Session.{answer}

-- The envelopes that the client sends for the envelopes that it received, in the order in which they came.
unfoldable pub answers : (Command → CommandResult) → List Envelope → List Envelope
unfolding answer
answers handler envelopes = map (answer handler) (received true envelopes)

-- What the device makes of the envelope of a call.
abbrev pub response_for : Dispatcher → Call → Response
response_for d c = dispatch d (record c.request { id = c.id })

pub answers-envelope :
    (d : Dispatcher) (c : Call)
    → answers (wire_handler d) (envelope c ∷ [])
      ≡ command_response (response_to_proto (response_for d c)) ∷ []
unfolding answers answer received envelope wire_handler get_command_request
answers-envelope d c =
    ap (λ r. command_response (response_to_proto (dispatch d r)) ∷ [])
      (wire_round_trip c.id c.request (response_for d c)).0

-- A call in progress whose channel is empty finds its result in its channel.
delivered_own :
    {s : Service} (history : Reach s) (device_id : String) (k : ℕ) (c : Call)
    (result : CommandResult)
    → s.calls k ≡ some c
    → c.phase ≡ waiting
    → s.channels k ≡ []
    → result.command_id ≡ c.id
    → let t = handle_result device_id (command_response result) s in
      (t.1 ≡ delivered k) × (t.0.channels k ≡ result ∷ []) × (t.0.calls k ≡ some c)
delivered_own {s} history device_id k c result e w empty same =
    let v = Reach-Inv history in
    let found : lookup c.id s.pending ≡ some k = v.reachable k c e (rw w refl) empty in
    elim (handle_result-Handled history device_id result) [
      | unknown absent _ ↦ ground (arith, absent, found, same)
      | matched j own at_j id o to held gone others calls ↦
          let mine : j ≡ k = ground (arith, at_j, e, id, same, v.unique c.id j k) in
          (
            to ∙ ap delivered mine,
            ap (λ i. (handle_result device_id (command_response result) s).0.channels i) (sym mine)
                ∙ held,
            calls k ∙ e,
          )
    ]

-- In every history with new ids, for a waiting call whose channel is empty, the client that
-- receives the call's envelope sends one envelope; when HandleResult has taken it, under any
-- device's name, the call receives and returns what the dispatcher answers to the call's request
-- under the call's id.
pub answers_arrive :
    {s : Service} (history : Reach s) (d : Dispatcher) (device_id : String) (k : ℕ) (c : Call)
    → s.calls k ≡ some c
    → c.phase ≡ waiting
    → s.channels k ≡ []
    → (reply : Envelope) × (answers (wire_handler d) (envelope c ∷ []) ≡ reply ∷ [])
      × ((step (receives k) (step (results device_id reply) s)).calls k
          ≡ some (record c { phase = returned (ok (response_for d c)) }))
unfolding response_to_proto dispatch step handle_result
answers_arrive {s} history d device_id k c e w empty =
    let result = response_to_proto (response_for d c) in
    let (_, held, kept) =
      delivered_own history device_id k c result e w empty
        ((dispatch_answers d (record c.request { id = c.id })).0) in
    let later = next history (results device_id (command_response result)) tt in
    let (took, _) = receives_own later k c result [] kept w held in
    (
      command_response result,
      answers-envelope d c,
      took
          ∙ ap (λ r. some (record c { phase = returned (ok r) }))
              (wire_round_trip c.id c.request (response_for d c)).1,
    )
