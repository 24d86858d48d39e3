-- ===== src/CommandBus/Handler/Access.antt =====
-- internal/commandbus/handler.go with internal/devices/service.go as its ownership check: what a request can reach, and
-- what its caller is told.
use deploy_os.Base.{
  ℕ, String, ◌≡◌, refl, sym, ap, ◌∙◌, ◌↔◌, Bool, true, Option, none, some, arith, eq_iff,
}
use deploy_os.Go.Errors.{GoError, sentinel, is, Result, ok, err}
use deploy_os.Auth.{User, success, failure, IsCaller}
use deploy_os.CommandBus.Wire.{Request, Response}
use deploy_os.CommandBus.Service.{not_connected}
use deploy_os.CommandBus.Handler.{
  SendCommandRequest, send, plan, answer, plan-IsAuthorized, deadline_exceeded,
}
use deploy_os.Devices.{Device}
use deploy_os.Devices.Service.{is_owner, list}
use deploy_os.Devices.Table.{Database, repository}
use deploy_os.Devices.Table.Owner.{IsTable}
use deploy_os.Devices.Table.Listing.{owns, is_owner-owns}
use deploy_os.Go.Map.{lookup}

-- A row of the device, of the user that the header authenticates.
pub record IsOwned (authenticate : String → Result User) (header : String) (db : Database)
    (device_id : String) : Type 0 where
  pub user : User
  pub row : Device
  pub by : IsCaller authenticate header user
  pub found : lookup device_id db.rows ≡ some row
  pub owner : row.user_id ≡ user.id

owns-row :
    (user_id : String) (o : Option Device)
    → owns user_id o ≡ true
    → (row : Device) × (o ≡ some row) × (row.user_id ≡ user_id)
owns-row user_id none h = cc
owns-row user_id (some row) h = (row, refl, (eq_iff row.user_id user_id).0 h)

is_owner-named :
    (user_id id : String) (db : Database)
    → is_owner repository user_id id db ≡ ok true
    → ¬ (user_id ≡ "")
unfolding is_owner list
is_owner-named user_id id db h q = let bad = rw (q, is_owner, list) at h in cc

-- Where the database is in reach and each of its rows stands once and under its own id, the
-- handler passes a command on to a device only when the header holds a token that the
-- authenticator accepts for a user, and the table holds a row of that device that belongs to
-- this user.
pub plan-IsOwned :
    (authenticate : String → Result User) (db : Database) (header device_id to : String)
    (body : Option SendCommandRequest) (req : Request)
    → IsTable db
    → db.failure ≡ none
    → plan authenticate (λ user_id id. is_owner repository user_id id db) header device_id body
      ≡ send to req
    → IsOwned authenticate header db to
plan-IsOwned authenticate db header device_id to body req t reach h =
    let a =
      (plan-IsAuthorized authenticate (λ user_id id. is_owner repository user_id id db) header
          device_id to req body).0
        h in
    let named = is_owner-named a.user.id device_id db a.owner in
    let exact = is_owner-owns a.user.id device_id db t named reach in
    let (row, found, owner) =
      owns-row a.user.id (lookup device_id db.rows) (ok_inj (sym exact ∙ a.owner)) in
    record {
      user = a.user;
      row = row;
      by = a.by;
      found = ap (λ id. lookup id db.rows) a.target ∙ found;
      owner = owner;
    }
  where
    ok_inj : {a b : Bool} → ok a ≡ ok b → a ≡ b
    ok_inj e = cc

answer-success :
    (r : Result Response) (status : ℕ) (resp : Response)
    → answer r ≡ success status resp
    → (r ≡ ok resp) × (status ≡ 200)
unfolding answer
answer-success (ok r) status resp h = (cc, cc)
answer-success (err e) status resp h = ground arith

-- The error that Send returns when the Sender fails is answered with 503 whatever the cause, an
-- expired deadline with 504, and an answer is a success exactly for a response, with status 200.
pub answer-not_connected :
    (e : GoError) (r : Result Response) (status : ℕ) (resp : Response)
    → (answer (err (not_connected e)) ≡ failure 503 "device is not connected")
      × (answer (err (sentinel deadline_exceeded))
          ≡ failure 504 "command timed out waiting for a response")
      × ((answer r ≡ success status resp) ↔ ((r ≡ ok resp) × (status ≡ 200)))
unfolding answer not_connected is
answer-not_connected e r status resp =
    (refl, refl, (answer-success r status resp, λ (p, q). rw (p, q) refl))
