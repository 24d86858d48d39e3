-- ===== src/ControlPlane/Routes/Logged.antt =====
-- Every status that the control plane's HTTP server sends is the one that the middleware logs.
use deploy_os.Base.{
  any, nat_eq, ℕ, code, String, ◌≡◌, refl, ◌⊎◌, inl, inr, Bool, true, false, Option, none, some,
  List, [], ◌∷◌, arith, nat_eq, ◌==◌, Bool-cases, any,
}
use deploy_os.Go.Errors.{GoError, Result, ok, err}
use deploy_os.Go.Mux.{path_value, Routed, found, no_method, no_path, route}
use deploy_os.Auth.{User, Reply, success, failure, caller}
use deploy_os.Monitoring
use deploy_os.Monitoring.{Status}
use deploy_os.Logging.{
  writes_of, middleware, sent, IsOrderly, writes_of-IsOrderly, middleware-sent, is_informational,
}
use deploy_os.Devices.{RegisterInput, Device}
use deploy_os.Devices.Service.{RegisterResult, is_owner, list, register}
use deploy_os.Devices.Table.{Database, repository}
use deploy_os.Devices.Handler.{
  service_error, response_of, listing, register_decoded, register_as, register_device, list_as,
  list_devices,
}
use deploy_os.CommandBus.Wire.{Request, Response}
use deploy_os.CommandBus.Handler.{
  SendCommandRequest, Plan, refuse, send, plan, plan_as, plan_device, plan_owned, plan_body, answer,
}
use deploy_os.Types.{validate_agent_id}
use deploy_os.ControlPlane.Routes.{
  Endpoint, healthz, version, commands, routes, HttpRequest, Backend, Page, health, versioned,
  registered, devices, planned, not_allowed, not_found, handle, dispatch, serve, Encoders,
  health_writes, page_writes,
}
use deploy_os.ControlPlane.Routes as Routes

-- The statuses that the API uses.
abbrev pub is_known : ℕ → Bool
is_known status =
    any (nat_eq status) (200 ∷ 201 ∷ 400 ∷ 401 ∷ 404 ∷ 405 ∷ 409 ∷ 500 ∷ 503 ∷ 504 ∷ [])

abbrev IsKnownReply : {A : Type 0} → Reply A → Type 0
IsKnownReply (success status body) = is_known status ≡ true
IsKnownReply (failure status m) = is_known status ≡ true

known-final : (status : ℕ) → is_known status ≡ true → is_informational status ≡ false
known-final status h = ground arith

service_error-IsKnownReply : (A : Type 0) (e : GoError) → IsKnownReply (service_error {A = A} e)
unfolding service_error
service_error-IsKnownReply A e = ground arith

response_of-IsKnownReply : (r : Result RegisterResult) → IsKnownReply (response_of r)
unfolding response_of
response_of-IsKnownReply (err e) = service_error-IsKnownReply _ e
response_of-IsKnownReply (ok r) = refl

listing-IsKnownReply :
    (is_connected : String → Bool) (r : Result (List Device))
    → IsKnownReply (listing is_connected r)
unfolding listing
listing-IsKnownReply is_connected (err e) = service_error-IsKnownReply _ e
listing-IsKnownReply is_connected (ok ds) = refl

answer-IsKnownReply : (r : Result Response) → IsKnownReply (answer r)
unfolding answer
answer-IsKnownReply (ok r) = refl
answer-IsKnownReply (err e) = ground arith

-- A refusal has a known status.
abbrev IsKnownPlan : Plan → Type 0
IsKnownPlan (refuse status m) = is_known status ≡ true
IsKnownPlan (send device_id req) = Unit

body-IsKnownPlan :
    (device_id : String) (body : Option SendCommandRequest) → IsKnownPlan (plan_body device_id body)
unfolding plan_body
body-IsKnownPlan device_id none = refl
body-IsKnownPlan device_id (some req) = elim (Bool-cases (req.kind == "")) [
  | inl e ↦ rw e refl
  | inr e ↦ rw e tt
]

owned-IsKnownPlan :
    (device_id : String) (body : Option SendCommandRequest) (o : Result Bool)
    → IsKnownPlan (plan_owned device_id body o)
unfolding plan_owned
owned-IsKnownPlan device_id body (err e) = refl
owned-IsKnownPlan device_id body (ok false) = refl
owned-IsKnownPlan device_id body (ok true) = body-IsKnownPlan device_id body

device-IsKnownPlan :
    (is_owner : String → String → Result Bool) (user : User) (device_id : String)
    (body : Option SendCommandRequest) (valid : Result (Unit {0}))
    → IsKnownPlan (plan_device is_owner user device_id body valid)
unfolding plan_device
device-IsKnownPlan is_owner user device_id body (err e) = refl
device-IsKnownPlan is_owner user device_id body (ok tt) =
    owned-IsKnownPlan device_id body (is_owner user.id device_id)

plan-IsKnownPlan :
    (is_owner : String → String → Result Bool) (device_id : String)
    (body : Option SendCommandRequest) (c : String ⊎ User)
    → IsKnownPlan (plan_as is_owner device_id body c)
unfolding plan_as
plan-IsKnownPlan is_owner device_id body (inl m) = refl
plan-IsKnownPlan is_owner device_id body (inr user) =
    device-IsKnownPlan is_owner user device_id body (validate_agent_id device_id)

-- Every reply in the page has a known status.
abbrev IsKnownPage : Page → Type 0
IsKnownPage (registered r) = IsKnownReply r
IsKnownPage (devices r) = IsKnownReply r
IsKnownPage (planned p) = IsKnownPlan p
IsKnownPage _ = Unit

module _ (b : Backend) (r : HttpRequest) (db : Database) where
  register-IsKnownReply :
      (c : String ⊎ User) (body : Option RegisterInput)
      → IsKnownReply (register_as repository b.issue b.parse_uuid c body db).1
  unfolding register_as register_decoded
  register-IsKnownReply (inl m) body = refl
  register-IsKnownReply (inr user) none = refl
  register-IsKnownReply (inr user) (some i) =
      response_of-IsKnownReply (register repository b.issue b.parse_uuid user.id i db).1

  list-IsKnownReply : (c : String ⊎ User) → IsKnownReply (list_as repository b.is_connected c db)
  unfolding list_as
  list-IsKnownReply (inl m) = refl
  list-IsKnownReply (inr user) = listing-IsKnownReply b.is_connected (list repository user.id db)

  handle-IsKnownPage :
      (e : Endpoint) (values : List String) → IsKnownPage (handle b r e values db).1
  unfolding handle register_device list_devices plan
  handle-IsKnownPage healthz values = tt
  handle-IsKnownPage version values = tt
  handle-IsKnownPage Routes.register values =
      register-IsKnownReply (caller b.authenticate r.header) (b.decode_register r.body)
  handle-IsKnownPage Routes.list values = list-IsKnownReply (caller b.authenticate r.header)
  handle-IsKnownPage commands values =
      plan-IsKnownPlan (λ user_id id. is_owner repository user_id id db) (path_value values)
        (b.decode_send r.body) (caller b.authenticate r.header)

  serve-IsKnownPage : (o : Routed Endpoint) → IsKnownPage (dispatch b r o db).1
  unfolding dispatch
  serve-IsKnownPage (found e values) = handle-IsKnownPage e values
  serve-IsKnownPage no_method = tt
  serve-IsKnownPage no_path = tt

module _ (json : Encoders) (service_send : String → Request → Result Response) where
  reply-known :
      (A : Type 0) (encode : A → String) (r : Reply A)
      → IsKnownReply r
      → IsOrderly (writes_of encode r) × (is_known (sent (writes_of encode r)) ≡ true)
  unfolding writes_of sent
  reply-known A encode (success status body) h = (
    writes_of-IsOrderly encode (success status body) (known-final status h),
    rw (known-final status h) h,
  )
  reply-known A encode (failure status m) h =
      let r : Reply A = failure status m in
      (writes_of-IsOrderly encode r (known-final status h), rw (known-final status h) h)

  page_writes-known :
      (p : Page)
      → IsKnownPage p
      → let writes = page_writes json service_send p in
        IsOrderly writes × (is_known (sent writes) ≡ true)
  unfolding page_writes sent
  page_writes-known (health (code, Monitoring.status_ok)) h = (tt, refl)
  page_writes-known (health (code, Monitoring.status_degraded)) h = ((refl, tt), refl)
  page_writes-known (versioned v) h = (tt, refl)
  page_writes-known (registered r) h = reply-known _ json.of_registered r h
  page_writes-known (devices r) h = reply-known _ json.of_devices r h
  page_writes-known (planned (refuse status m)) h =
      reply-known _ json.of_response (failure status m) h
  page_writes-known (planned (send device_id req)) h =
      reply-known _ json.of_response (answer (service_send device_id req))
        (answer-IsKnownReply (service_send device_id req))
  page_writes-known not_allowed h = ((refl, tt), refl)
  page_writes-known not_found h = ((refl, tt), refl)

  -- Whatever the request and whatever the Command Bus returns, the status that the control plane
  -- sends is one of 200, 201, 400, 401, 404, 405, 409, 500, 503 and 504, and it is the one that
  -- the middleware logs.
  pub serve_logged :
      (b : Backend) (r : HttpRequest) (db : Database) (id : Option String) (path : String)
      → let writes = page_writes json service_send (serve b r db).1 in
        let entry = (middleware (λ request_id. writes) id r.method path).1 in
        (entry.status ≡ sent writes) × (is_known (sent writes) ≡ true)
  unfolding serve page_writes middleware
  serve_logged b r db id path =
      let page = (serve b r db).1 in
      let (orderly, known) =
        page_writes-known page (serve-IsKnownPage b r db (route routes r.method r.path)) in
      (
        (middleware-sent (λ request_id. page_writes json service_send page) id r.method path
            (λ request_id. orderly)).0,
        known,
      )
