-- ===== src/Fleet/Presence.antt =====
-- internal/devices/handler.go with internal/connection/manager.go behind it: what a user is shown of the devices and their connections.
use deploy_os.Base.{
  ℕ, String, ◌≡◌, refl, sym, ap, ◌∙◌, subst, ◌↔◌, ◌⊎◌, inl, inr, none, some, List, map, arith,
  eq_iff, ◌==◌, Bool-cases, Option-cases,
}
use deploy_os.Go.Errors.{GoError, is, Result, ok, err, map_error-ok}
use mathlib.Core.List.{Memᴰ}
use mathlib.Core.List.Memᴰ
use deploy_os.Auth.{User, success, caller, IsCaller, caller-IsCaller}
use deploy_os.Devices.{Device, err_invalid_input, err_owned_by_another_user}
use deploy_os.Devices.Service.{list}
use deploy_os.Devices.Table.{Database, repository, values, list_by_user}
use deploy_os.Devices.Table.Members.{Mem-list_by_user}
use deploy_os.Devices.Handler.{
  ListedDevice, service_error, connection_status, listed, listing, list_as, list_devices,
}
use deploy_os.Connection.Manager.{
  is_connected-none, is_connected-get, Manager, State, get, is_connected,
}
use deploy_os.Connection.Server.{Server, Event, new_server, run}
use deploy_os.Connection.Server.Invariant.{Alive}
use deploy_os.Connection.Server.Interleaving.{new_server_reports}

-- The devices of a listing are the user's rows.
Mem-list :
    (user_id : String) (db : Database) (ds : List Device) (x : Device)
    → list repository user_id db ≡ ok ds
    → (Memᴰ x (values db.rows) × (x.user_id ≡ user_id)) ↔ Memᴰ x ds
unfolding list
Mem-list user_id db ds x h = elim (Bool-cases (user_id == "")) [
  | inl e ↦ let bad = rw e at h in cc
  | inr e ↦
      Mem-list_by_user user_id db ds x (map_error-ok _ (list_by_user user_id db) ds (rw e at h))
]

-- A device is shown as connected exactly when the manager has an entry for it.
shown-get :
    (d : String) (m : Manager)
    → (connection_status (is_connected d m) ≡ "connected") ↔ ((st : State) × (get d m ≡ some st))
shown-get d m = elim (Option-cases (get d m)) [
  | inl e ↦ (
    λ h. absurd (differ (rw (is_connected-none d m e) at h)),
    λ (st, f). let bad = sym e ∙ f in cc,
  )
  | inr (st, e) ↦ (λ h. (st, e), λ f. rw (is_connected-get d m e) refl)
]
  where
    differ : ◌≡◌ {A = String} "disconnected" "connected" → ⊥
    differ q = ground (arith, eq_iff "disconnected" "connected")

-- What one device of the answer shows.
pub record IsShown (user : User) (db : Database) (s : Server) (d : ListedDevice) : Type 0 where
  pub row : Device
  pub in_table : Memᴰ row (values db.rows)
  pub shows : d ≡ listed (λ id. is_connected id s.manager) row
  pub owner : row.user_id ≡ user.id
  pub connected :
      (d.status ≡ "connected")
      → (st : State) × (get row.id s.manager ≡ some st) × Alive s.connections row.id st
  pub disconnected : ¬ (d.status ≡ "connected") → get row.id s.manager ≡ none

show :
    (user : User) (db : Database) (es : List Event) (d : ListedDevice) (row : Device)
    → d ≡ listed (λ id. is_connected id (run es new_server).manager) row
    → Memᴰ row (values db.rows)
    → row.user_id ≡ user.id
    → IsShown user db (run es new_server) d
unfolding listed
show user db es d row shows in_table owner =
    let s = run es new_server in
    let status = ap (λ (x : ListedDevice). x.status) shows in
    let (there, back) = shown-get row.id s.manager in
    record {
      row = row;
      in_table = in_table;
      shows = shows;
      owner = owner;
      connected = λ h.
          let (st, f) = there (sym status ∙ h) in (st, f, (new_server_reports es).0 row.id st f);
      disconnected = λ h. elim (Option-cases (get row.id s.manager)) [
        | inl e ↦ e
        | inr (st, e) ↦ absurd (h (status ∙ back (st, e)))
      ];
    }

service_error-failure :
    (e : GoError) (status_code : ℕ) (ds : List ListedDevice)
    → ¬ (service_error e ≡ success status_code ds)
unfolding service_error
service_error-failure e status_code ds h = elim (Bool-cases (is e err_invalid_input)) [
  | inl q ↦ let bad = rw q at h in cc
  | inr q ↦ elim (Bool-cases (is e err_owned_by_another_user)) [
    | inl o ↦ let bad = rw (q, o) at h in cc
    | inr o ↦ let bad = rw (q, o) at h in cc
  ]
]

-- The rows of the user, as they are shown while the connections stand as they do.
pub record AreShown (user : User) (db : Database) (s : Server) (ds : List ListedDevice)
    : Type 0 where
  pub only : (d : ListedDevice) → Memᴰ d ds → IsShown user db s d
  pub every :
      (row : Device)
      → Memᴰ row (values db.rows)
      → row.user_id ≡ user.id
      → Memᴰ (listed (λ id. is_connected id s.manager) row) ds

listing-AreShown :
    (user : User) (es : List Event) (db : Database) (r : Result (List Device))
    (ds : List ListedDevice) (status_code : ℕ)
    → list repository user.id db ≡ r
    → listing (λ id. is_connected id (run es new_server).manager) r ≡ success status_code ds
    → AreShown user db (run es new_server) ds
unfolding listing
listing-AreShown user es db (err e) ds status_code q h =
    absurd (service_error-failure e status_code ds h)
listing-AreShown user es db (ok rows) ds status_code q h =
    let shown = listed (λ id. is_connected id (run es new_server).manager) in
    let same : map (listed (λ id. is_connected id (run es new_server).manager)) rows ≡ ds = cc h in
    record {
      only = λ d m.
          let (row, at, shows) = Memᴰ.of_map _ rows (subst (λ l. Memᴰ d l) (sym same) m) in
          let (there, owner) = (Mem-list user.id db rows row q).1 at in
          show user db es d row (sym shows) there owner;
      every = λ row there owner.
          subst (λ l. Memᴰ (shown row) l) same
            (Memᴰ.map shown ((Mem-list user.id db rows row q).0 (there, owner)));
    }

-- After any interleaving of the handlers' steps on a new connection server, a list of devices
-- that is given goes to a user whose token the header holds. Each device in it is a row of the
-- table that belongs to this user, shown as connected only when a handler serves that device,
-- under the user and the session of its entry, and shown otherwise only when the Connection
-- Manager has no entry for it; and every row of the table that belongs to this user is in it,
-- with the status that its entry gives.
pub list_devices-IsShown :
    (authenticate : String → Result User) (db : Database) (header : String) (es : List Event)
    (status_code : ℕ) (ds : List ListedDevice)
    → list_devices repository
        (λ id. is_connected id (run es new_server).manager)
        authenticate
        header
        db
      ≡ success status_code ds
    → (user : User) × IsCaller authenticate header user × AreShown user db (run es new_server) ds
unfolding list_devices list_as
list_devices-IsShown authenticate db header es status_code ds h =
    by (caller authenticate header) refl h
  where
    by :
        (c : String ⊎ User)
        → caller authenticate header ≡ c
        → list_as repository (λ id. is_connected id (run es new_server).manager) c db
          ≡ success status_code ds
        → (user : User) × IsCaller authenticate header user
          × AreShown user db (run es new_server) ds
    by (inl m) q g = cc
    by (inr user) q g = (
      user,
      (caller-IsCaller authenticate header user).0 q,
      listing-AreShown user es db (list repository user.id db) ds status_code refl g,
    )
