-- ===== src/ControlPlane/Routes/Answers.antt =====
-- Which handler answers a request, and to whom.
use deploy_os.Base.{String, ◌≡◌, refl, ◌⊎◌, inl, inr, List, [], ◌∷◌}
use deploy_os.Go.Mux.{Routed, found, no_method, no_path, route, path_value}
use deploy_os.Auth.{User, success, failure, caller, IsCaller, caller-IsCaller}
use deploy_os.Devices.Table.{Database}
use deploy_os.Devices.Handler.{register_device, list_devices, register_as, list_as}
use deploy_os.CommandBus.Handler.{refuse, send, plan, plan_as}
use deploy_os.ControlPlane.Routes.Paths.{path_of, IsAt, found-IsAt, IsAt-found}
use deploy_os.ControlPlane.Routes.{
  Endpoint, healthz, version, register, list, commands, routes, HttpRequest, Backend, Page,
  registered, devices, planned, not_allowed, not_found, handle, dispatch, serve,
}

-- Nothing but the server's state of health and version, or that the request is not served.
abbrev pub IsOpen : Page → Type 0
IsOpen (registered (success status body)) = ⊥
IsOpen (registered (failure status m)) = status ≡ 401
IsOpen (devices (success status body)) = ⊥
IsOpen (devices (failure status m)) = status ≡ 401
IsOpen (planned (send device_id req)) = ⊥
IsOpen (planned (refuse status m)) = status ≡ 401
IsOpen _ = Unit

abbrev pub IsPrivate : Endpoint → Type 0
IsPrivate healthz = ⊥
IsPrivate version = ⊥
IsPrivate _ = Unit

-- Who got what.
pub data Guarded (b : Backend) (r : HttpRequest) (db : Database) (served : Database × Page)
    : Type 0 where
  open_to_all : served.0 ≡ db → IsOpen served.1 → Guarded b r db served
  to_user :
      (user : User) (e : Endpoint) (id : String)
      → IsCaller b.authenticate r.header user
      → IsPrivate e
      → IsAt r.method r.path e id
      → Guarded b r db served

module _ (b : Backend) (r : HttpRequest) (db : Database) where
  handle-Guarded :
      (e : Endpoint) (values : List String) (c : String ⊎ User)
      → caller b.authenticate r.header ≡ c
      → IsAt r.method r.path e (path_value values)
      → Guarded b r db (handle b r e values db)
  unfolding handle
  handle-Guarded healthz values c q at = open_to_all refl tt
  handle-Guarded version values c q at = open_to_all refl tt
  handle-Guarded register values (inr user) q at =
      to_user user register (path_value values) ((caller-IsCaller b.authenticate r.header user).0 q)
        tt at
  handle-Guarded list values (inr user) q at =
      to_user user list (path_value values) ((caller-IsCaller b.authenticate r.header user).0 q) tt
        at
  handle-Guarded commands values (inr user) q at =
      to_user user commands (path_value values) ((caller-IsCaller b.authenticate r.header user).0 q)
        tt at
  handle-Guarded register values (inl m) q at =
      unfold register_device in rw q (unfold register_as in open_to_all refl refl)
  handle-Guarded list values (inl m) q at =
      unfold list_devices in rw q (unfold list_as in open_to_all refl refl)
  handle-Guarded commands values (inl m) q at =
      unfold plan in rw q (unfold plan_as in open_to_all refl refl)

  dispatch-Guarded :
      (o : Routed Endpoint) → route routes r.method r.path ≡ o → Guarded b r db (dispatch b r o db)
  unfolding dispatch
  dispatch-Guarded (found e values) q =
      handle-Guarded e values (caller b.authenticate r.header) refl
        (found-IsAt r.method r.path e values q)
  dispatch-Guarded no_method q = open_to_all refl tt
  dispatch-Guarded no_path q = open_to_all refl tt

  -- The control plane leaves the table of devices as it is and answers a request with its health,
  -- its version, 401, 404 or 405, or the Authorization header holds a token of a user and the
  -- request is one to register a device, to list the devices or to send a command.
  pub serve-Guarded : Guarded b r db (serve b r db)
  unfolding serve
  serve-Guarded = dispatch-Guarded (route routes r.method r.path) refl

  -- What the endpoint answers to the request, with the device id of its path.
  abbrev pub answer_of : Endpoint → String → Database × Page
  answer_of e id = handle b r e (id ∷ []) db

  handle-answer_of :
      (e : Endpoint) (values : List String) (id : String)
      → path_of e (path_value values) ≡ path_of e id
      → handle b r e values db ≡ answer_of e id
  unfolding handle
  handle-answer_of healthz values id q = refl
  handle-answer_of version values id q = refl
  handle-answer_of register values id q = refl
  handle-answer_of list values id q = refl
  handle-answer_of commands values id q = let same : path_value values ≡ id = cc q in rw same refl

  -- A request for an endpoint is answered by it, with the device id of the path, and one for none leaves the table as
  -- it is and is answered with 405 or 404.
  pub serve-answer_of :
      ((e : Endpoint) (id : String) → IsAt r.method r.path e id → serve b r db ≡ answer_of e id)
      × (((e : Endpoint) (id : String) → ¬ IsAt r.method r.path e id)
          → ((serve b r db).0 ≡ db)
            × (((serve b r db).1 ≡ not_allowed) ⊎ ((serve b r db).1 ≡ not_found)))
  unfolding serve dispatch
  serve-answer_of = (
    λ e id at.
        let (values, q, same) = IsAt-found r.method r.path e id at in
        rw q (handle-answer_of e values id same),
    λ none_fits. by (route routes r.method r.path) refl none_fits,
  )
    where
      by :
          (o : Routed Endpoint)
          → route routes r.method r.path ≡ o
          → ((e : Endpoint) (id : String) → ¬ IsAt r.method r.path e id)
          → ((dispatch b r o db).0 ≡ db)
            × (((dispatch b r o db).1 ≡ not_allowed) ⊎ ((dispatch b r o db).1 ≡ not_found))
      by (found e values) q n =
          absurd (n e (path_value values) (found-IsAt r.method r.path e values q))
      by no_method q n = (refl, inl refl)
      by no_path q n = (refl, inr refl)
