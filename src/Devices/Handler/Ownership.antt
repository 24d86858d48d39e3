-- ===== src/Devices/Handler/Ownership.antt =====
-- internal/devices/handler.go, Register, over the table of internal/devices/postgres.go: who owns a device after a request.
use deploy_os.Base.{
  ℕ, String, ◌≡◌, refl, sym, ap, ◌∙◌, subst, ◌⊎◌, inl, inr, Option, none, some, arith, eq_refl,
  ◌==◌, Bool-cases, ==_false,
}
use deploy_os.Go.Errors.{GoError, is, Result, ok, err}
use deploy_os.Auth.{User, Reply, success, failure, caller, IsCaller, caller-IsCaller}
use deploy_os.Devices.{Device, RegisterInput, validate_input, IsComplete, validate_input-IsComplete}
use deploy_os.Devices.Service.{
  stored, issued, RegisterResult, register, register-IsRegistered, device_of,
}
use deploy_os.Devices.Table.{Database, upsert, repository, upsert_after, on_conflict}
use deploy_os.Devices.Table.Owner.{
  Upsert, unreached, created, refreshed, refused, upsert-Upsert, IsSameOwner, upserted-IsSameOwner,
}
use deploy_os.Devices.Handler.{
  RegisterResponse, register_device, register_as, register_decoded, response_of, service_error,
}
use deploy_os.Go.Map.{lookup, lookup-insert}

stored-row :
    (d : Device) (db : Database) (x : Database × Result Device) (new : Device)
    → Upsert d db x
    → x.1 ≡ ok new
    → (lookup d.id x.0.rows ≡ some new) × (new.user_id ≡ d.user_id)
stored-row d db x new (unreached e f) h = cc
stored-row d db x new (created row f absent q) h =
    let same : row ≡ new = cc in
    (rw (lookup-insert, eq_refl d.id, same) refl, ap (λ (y : Device). y.user_id) (sym same ∙ q))
stored-row d db x new (refreshed old row f found owner q) h =
    let same : row ≡ new = cc in
    (
      rw (lookup-insert, eq_refl d.id, same) refl,
      ap (λ (y : Device). y.user_id) (sym same ∙ q) ∙ owner,
    )
stored-row d db x new (refused old f found differs) h = cc

service_error-failure :
    (e : GoError) (n : ℕ) (r : RegisterResponse) → service_error e ≡ success n r → ⊥
unfolding service_error
service_error-failure e n r h = ground arith

response_of-created :
    (x : Result RegisterResult) (resp : RegisterResponse)
    → response_of x ≡ success 201 resp
    → (r : RegisterResult) × (x ≡ ok r) × (r.token ≡ resp.token) × (r.expires_at ≡ resp.expires_at)
unfolding response_of
response_of-created (err e) resp h = absurd (service_error-failure e 201 resp h)
response_of-created (ok r) resp h =
    let same = body h in
    (
      r,
      refl,
      ap (λ (y : RegisterResponse). y.token) same,
      ap (λ (y : RegisterResponse). y.expires_at) same,
    )
  where
    body : {a b : RegisterResponse} → success 201 a ≡ success 201 b → a ≡ b
    body q = cc

-- A complete request of a user whose id is not empty; the row of the device that its Upsert left, of that user; and the
-- token that was issued for the row.
pub record IsCreated (issue : Device → Result (String × ℕ))
    (parse_uuid : String → Result (Unit {0})) (authenticate : String → Result User)
    (header : String) (i : RegisterInput) (db after : Database) (resp : RegisterResponse)
    : Type 0 where
  pub user : User
  pub row : Device
  pub by : IsCaller authenticate header user
  pub named : ¬ (user.id ≡ "")
  pub complete : IsComplete parse_uuid i
  pub upserted : upsert (device_of user.id i) db ≡ (after, ok row)
  pub kept : lookup i.device_id after.rows ≡ some row
  pub owner : row.user_id ≡ user.id
  pub token : issue row ≡ ok (resp.token, resp.expires_at)

module _ (issue : Device → Result (String × ℕ)) (parse_uuid : String → Result (Unit {0}))
    (authenticate : String → Result User) (header : String) where
  decoded-IsCreated :
      (user : User) (i : RegisterInput) (db after : Database) (resp : RegisterResponse)
      → IsCaller authenticate header user
      → register_decoded repository issue parse_uuid user (some i) db ≡ (after, success 201 resp)
      → IsCreated issue parse_uuid authenticate header i db after resp
  unfolding register_decoded
  decoded-IsCreated user i db after resp c h =
      let done = register repository issue parse_uuid user.id i db in
      let state : done.0 ≡ after = ap (λ (y : Database × Reply RegisterResponse). y.0) h in
      let (r, e, token, expiry) =
        response_of-created done.1 resp (ap (λ (y : Database × Reply RegisterResponse). y.1) h) in
      let g =
        (register-IsRegistered repository issue parse_uuid user.id i db after r).0
          (pair done after r state e) in
      let d = device_of user.id i in
      let (kept, owner) =
        stored-row d db (after, ok r.device) r.device
          (subst (Upsert d db) g.kept (upsert-Upsert d db)) refl in
      record {
        user = user;
        row = r.device;
        by = c;
        named = g.user;
        complete = (validate_input-IsComplete parse_uuid i).0 g.valid;
        upserted = g.kept;
        kept = kept;
        owner = owner;
        token = cc (g.token, token, expiry);
      }
    where
      pair :
          (done : Database × Result RegisterResult) (after : Database) (r : RegisterResult)
          → done.0 ≡ after
          → done.1 ≡ ok r
          → done ≡ (after, ok r)
      pair (a, b) after r p q = cc (p, q)

  -- A registration that is answered with 201 came from a complete request of a user, with an id
  -- that is not empty, whose token the header holds; its Upsert left the row that the table now
  -- has for the device, which belongs to that user; and the answer has the token that was issued
  -- for that row.
  pub register_device-IsCreated :
      (i : RegisterInput) (db after : Database) (resp : RegisterResponse)
      → register_device repository issue parse_uuid authenticate header (some i) db
        ≡ (after, success 201 resp)
      → IsCreated issue parse_uuid authenticate header i db after resp
  unfolding register_device register_as
  register_device-IsCreated i db after resp h = by (caller authenticate header) refl
    where
      apart : (m : String) → failure 401 m ≡ success 201 resp → ⊥
      apart m bad = cc

      by :
          (c : String ⊎ User)
          → caller authenticate header ≡ c
          → IsCreated issue parse_uuid authenticate header i db after resp
      by (inl m) e =
          let bad =
            ap (λ (y : Database × Reply RegisterResponse). y.1)
              (rw (e, register_device, register_as) at h) in
          absurd (apart m bad)
      by (inr user) e =
          decoded-IsCreated user i db after resp ((caller-IsCaller authenticate header user).0 e)
            (rw (e, register_device, register_as) at h)

  -- With the database in reach, a complete request of an authenticated user, whose id is not
  -- empty, for a device that has a row of another user is answered with 409 and leaves the
  -- database as it was.
  pub register_device-refused :
      (user : User) (i : RegisterInput) (db : Database) (old : Device)
      → IsCaller authenticate header user
      → ¬ (user.id ≡ "")
      → IsComplete parse_uuid i
      → db.failure ≡ none
      → lookup i.device_id db.rows ≡ some old
      → ¬ (old.user_id ≡ user.id)
      → register_device repository issue parse_uuid authenticate header (some i) db
        ≡ (db, failure 409 "device is already registered to another account")
  unfolding register_device register_as register_decoded register stored issued upsert upsert_after
      on_conflict response_of service_error is
  register_device-refused user i db old c named valid reach found differs =
      let q = (caller-IsCaller authenticate header user).1 c in
      let v = (validate_input-IsComplete parse_uuid i).1 valid in
      rw (
        q,
        register_device,
        register_as,
        ==_false user.id "" named,
        v,
        reach,
        found,
        on_conflict,
        ==_false old.user_id user.id differs,
      )

  issued-state : (x : Database × Result Device) → (issued issue x).0 ≡ x.0
  unfolding issued
  issued-state (s, err e) = refl
  issued-state (s, ok d) = refl

  stored-IsSameOwner :
      (k : String) (row : Device) (db : Database)
      → lookup k db.rows ≡ some row
      → (d : Device) (v : Result (Unit {0}))
      → IsSameOwner row (lookup k (stored repository issue d v db).0.rows)
  unfolding stored
  stored-IsSameOwner k row db e d (err er) = rw e (refl, refl)
  stored-IsSameOwner k row db e d (ok tt) =
      rw (issued-state (upsert d db))
        (upserted-IsSameOwner k row d db (upsert d db) e (upsert-Upsert d db))

  decoded-IsSameOwner :
      (k : String) (row : Device) (db : Database)
      → lookup k db.rows ≡ some row
      → (user : User) (body : Option RegisterInput)
      → IsSameOwner row
          (lookup k (register_decoded repository issue parse_uuid user body db).0.rows)
  unfolding register_decoded register
  decoded-IsSameOwner k row db e user none = rw e (refl, refl)
  decoded-IsSameOwner k row db e user (some i) = elim (Bool-cases (user.id == "")) [
    | inl q ↦ rw (q, e) (refl, refl)
    | inr q ↦
        rw q (stored-IsSameOwner k row db e (device_of user.id i) (validate_input parse_uuid i))
  ]

  called-IsSameOwner :
      (k : String) (row : Device) (db : Database)
      → lookup k db.rows ≡ some row
      → (c : String ⊎ User) (body : Option RegisterInput)
      → IsSameOwner row (lookup k (register_as repository issue parse_uuid c body db).0.rows)
  unfolding register_as
  called-IsSameOwner k row db e (inl m) body = rw e (refl, refl)
  called-IsSameOwner k row db e (inr user) body = decoded-IsSameOwner k row db e user body

  -- Whatever a registration request holds and however it is answered, a row that was in the table
  -- is still there under its id, with the same owner and the same time of creation.
  pub register_device-IsSameOwner :
      (body : Option RegisterInput) (k : String) (row : Device) (db : Database)
      → lookup k db.rows ≡ some row
      → IsSameOwner row (
          lookup k (register_device repository issue parse_uuid authenticate header body db).0.rows)
  unfolding register_device
  register_device-IsSameOwner body k row db e =
      called-IsSameOwner k row db e (caller authenticate header) body
