-- ===== src/Fleet/Delivery.antt =====
-- internal/commandbus/handler.go through internal/commandbus/service.go to internal/connection/server.go: on which stream a command of a
-- user is written, and what its caller is told when the device has none.
use deploy_os.Base.{ℕ, String, ◌≡◌, refl, false, Option, none, some, List, [], ◌∷◌, ◌++◌, arith}
use deploy_os.Go.Errors.{GoError, sentinel, Result, ok, err}
use deploy_os.Proto.{Envelope}
use deploy_os.Go.Map.{lookup}
use deploy_os.Auth.{User, failure}
use deploy_os.Devices.Service.{is_owner}
use deploy_os.Devices.Table.{Database, repository}
use deploy_os.Devices.Table.Owner.{IsTable}
use deploy_os.CommandBus.Wire.{Request, Response}
use deploy_os.CommandBus.Service
use deploy_os.CommandBus.Service.{Call, Service, registered, returned, not_connected, envelope}
use deploy_os.CommandBus.Service.Correlation.{sends_error}
use deploy_os.CommandBus.Handler.{SendCommandRequest, send, plan, answer}
use deploy_os.CommandBus.Handler.Access.{IsOwned, plan-IsOwned, answer-not_connected}
use deploy_os.Connection.Server
use deploy_os.Connection.Server.{
  Connection, Server, Event, new_server, run, step, writes, find_handle, err_device_not_connected,
}
use deploy_os.Connection.Server.Invariant.{Serves}
use deploy_os.Connection.Server.Interleaving.{new_server_reports}
use deploy_os.Connection.Server.Reconnect.{gone_device}

-- What Server.Send returns, where a stream takes what is written on it.
unfoldable pub send_error : Result ℕ → Option GoError
send_error (err e) = some e
send_error (ok h) = none

-- The handler of a device that has not returned.
serving_one :
    (d : String) (o : Option Connection)
    → Serves d o
    → (c : Connection) × (o ≡ some c) × (c.device_id ≡ d)
serving_one d none h = absurd h
serving_one d (some c) h = (c, refl, h)

-- Server.Send writes on the stream that it found, and on no other.
writes-written :
    (h : ℕ) (env : Envelope) (c : Connection) (s : Server)
    → s.connections h ≡ some c
    → ((step (writes h env) s).connections h
        ≡ some (record c { written = c.written ++ (env ∷ []) }))
      × ((j : ℕ) → ¬ (j ≡ h) → (step (writes h env) s).connections j ≡ s.connections j)
unfolding step Server.write_to
writes-written h env c s e = rw e (ground arith, λ j n. ground arith)

-- Where the database is in reach and each of its rows stands once and under its own id, when the
-- HTTP handler passes a command on to a device and, after any interleaving of the handlers'
-- steps on a new connection server, a Send finds a handle for it, then the header authenticates
-- a user and the table holds a row of the device that belongs to this user; the handle's stream
-- is one that authenticated as that device; and the write appends the envelope to that stream
-- and changes no other.
pub plan-writes :
    (authenticate : String → Result User) (db : Database) (header device_id to : String)
    (body : Option SendCommandRequest) (req : Request) (es : List Event) (h : ℕ) (env : Envelope)
    → IsTable db
    → db.failure ≡ none
    → plan authenticate (λ user_id id. is_owner repository user_id id db) header device_id body
      ≡ send to req
    → find_handle to (run es new_server) ≡ ok h
    → let s = run es new_server in
      (c : Connection) × (s.connections h ≡ some c)
      × (c.device_id ≡ to)
      × IsOwned authenticate header db to
      × ((step (writes h env) s).connections h
          ≡ some (record c { written = c.written ++ (env ∷ []) }))
      × ((j : ℕ) → ¬ (j ≡ h) → (step (writes h env) s).connections j ≡ s.connections j)
plan-writes authenticate db header device_id to body req es h env t reach p found =
    let s = run es new_server in
    let (c, at, same) = serving_one to (s.connections h) ((new_server_reports es).1 to h found) in
    let (written, others) = writes-written h env c s at in
    (
      c,
      at,
      same,
      plan-IsOwned authenticate db header device_id to body req t reach p,
      written,
      others,
    )

-- After any interleaving of the handlers' steps on a new connection server, a call of
-- Service.Send to a device for which every handler has returned returns an error that the HTTP
-- handler answers with 503; its entry is removed, and no channel changes.
pub offline_answer :
    (es : List Event) (k : ℕ) (c : Call) (s : Service)
    → ((h : ℕ) → ¬ Serves c.device_id ((run es new_server).connections h))
    → s.calls k ≡ some c
    → c.phase ≡ registered
    → let t =
        Service.step
          (Service.sends k (send_error (find_handle c.device_id (run es new_server))))
          s in
      (r : Result Response) × (t.calls k ≡ some (record c { phase = returned r }))
      × (answer r ≡ failure 503 "device is not connected")
      × (lookup c.id t.pending ≡ none)
      × (t.channels ≡ s.channels)
unfolding send_error
offline_answer es k c s none_serves e p =
    let e0 = sentinel err_device_not_connected in
    let (_, gone) = gone_device es c.device_id none_serves in
    let (ended, _, cleared, _, kept) = sends_error k c e0 s e p in
    rw gone (
      err (not_connected e0),
      ended,
      (answer-not_connected e0 (err e0) 0 none_response).0,
      cleared,
      kept,
    )
  where
    none_response : Response
    none_response = record { command_id = ""; success = false; message = ""; details = [] }
