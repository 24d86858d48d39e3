-- ===== src/Examples/Delivery.antt =====
-- A command on its way to a stream, and one for a device that has none, at concrete inputs.
use deploy_os.Base.{ℕ, ◌≡◌, refl, none, some, List, [], ◌∷◌, ◌++◌, arith}
use deploy_os.Go.Errors.{Result, ok}
use deploy_os.Proto.{Envelope, command_request}
use deploy_os.Go.Map.{lookup, insert}
use deploy_os.Auth.{failure}
use deploy_os.CommandBus.Wire.{Response}
use deploy_os.CommandBus.Service
use deploy_os.CommandBus.Service.{Call, Service, registered, returned, begins, new_service}
use deploy_os.CommandBus.Handler.{answer}
use deploy_os.CommandBus.Handler.Access.{IsOwned}
use deploy_os.Connection.Server.{
  Connection, Event, new_server, run, step, opens, tracks, responds, ends, returns, writes,
  find_handle,
}
use deploy_os.Connection.Server.Invariant.{Serves}
use deploy_os.Fleet.Delivery.{send_error, plan-writes, offline_answer}
use deploy_os.Examples.Devices.{directory, table, table-IsTable}
use deploy_os.Examples.Access.{ping, ping_request, ann_sends}

abbrev online : List Event
online = opens "d-1" "u-1" "s-1" ∷ tracks 0 10 ∷ responds 0 ∷ []

abbrev command : Envelope
command = command_request (record { id = "c-1"; kind = "PING"; arguments = none })

found : find_handle "d-1" (run online new_server) ≡ ok 0
unfolding run step new_server find_handle lookup insert
found = refl

plan-writes_example :
    let s = run online new_server in
    (c : Connection) × (s.connections 0 ≡ some c)
    × (c.device_id ≡ "d-1")
    × IsOwned directory "Bearer ann" table "d-1"
    × ((step (writes 0 command) s).connections 0
        ≡ some (record c { written = c.written ++ (command ∷ []) }))
    × ((j : ℕ) → ¬ (j ≡ 0) → (step (writes 0 command) s).connections j ≡ s.connections j)
plan-writes_example =
    plan-writes directory table "Bearer ann" "d-1" "d-1" (some ping) ping_request online 0 command
      table-IsTable refl ann_sends found

abbrev gone : List Event
gone = opens "d-1" "u-1" "s-1" ∷ tracks 0 10 ∷ responds 0 ∷ ends 0 ∷ returns 0 ∷ []

no_handler : (h : ℕ) → ¬ Serves "d-1" ((run gone new_server).connections h)
unfolding run step new_server
no_handler h s = ground arith

abbrev call : Call
call = record { id = "c-1"; device_id = "d-1"; request = ping_request; phase = registered }

abbrev begun : Service
begun = Service.step (begins "c-1" "d-1" ping_request) new_service

begun_call : begun.calls 0 ≡ some call
unfolding Service.step new_service
begun_call = refl

offline_answer_example :
    let t =
      Service.step (Service.sends 0 (send_error (find_handle "d-1" (run gone new_server)))) begun in
    (r : Result Response) × (t.calls 0 ≡ some (record call { phase = returned r }))
    × (answer r ≡ failure 503 "device is not connected")
    × (lookup "c-1" t.pending ≡ none)
    × (t.channels ≡ begun.channels)
offline_answer_example = offline_answer gone 0 call begun no_handler begun_call refl
