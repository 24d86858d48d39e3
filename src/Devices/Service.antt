-- ===== src/Devices/Service.antt =====
-- internal/devices/service.go: registration, listing and the ownership check, over the interface Repository of
-- internal/devices/repository.go and an issuer of tokens (TokenIssuer of internal/devices/token.go).
use deploy_os.Base.{
  ℕ, String, concat, ◌≡◌, ap, ◌↔◌, inl, inr, Bool, List, [], ◌∷◌, arith, eq_iff, ◌==◌,
  if◌then◌else◌, ==-cases, ==_false, any,
}
use deploy_os.Go.Errors.{
  GoError, sentinel, wrap, error_text, is, Result, ok, err, ◌>>=◌, map_error, Result-cases,
}
use deploy_os.Devices.{
  Device, RegisterInput, validate_input, err_invalid_input, err_owned_by_another_user,
  status_registered, prefixed,
}

-- Repository, over the state of the store.
pub record Repository (State : Type 0) : Type 0 where
  pub upsert : Device → State → State × Result Device
  pub list_by_user : String → State → Result (List Device)

pub record RegisterResult : Type 0 where
  pub device : Device
  pub token : String
  pub expires_at : ℕ

-- The device that Register stores; the repository sets its times.
abbrev pub device_of : String → RegisterInput → Device
device_of user_id i = record {
  id = i.device_id;
  user_id = user_id;
  hostname = i.hostname;
  operating_system = i.operating_system;
  architecture = i.architecture;
  cpu_cores = i.cpu_cores;
  memory_bytes = i.memory_bytes;
  deployos_version = i.deployos_version;
  status = status_registered;
  created_at = 0;
  updated_at = 0;
}

-- fmt.Errorf("%w: ...", ErrInvalidInput, ...)
abbrev pub invalid_input : String → GoError
invalid_input m = wrap "" (sentinel err_invalid_input) (concat (": " ∷ m ∷ []))

abbrev pub empty_user : GoError
empty_user = invalid_input "user id must not be empty"

unfoldable pub store_error : GoError → GoError
store_error e = if is e err_owned_by_another_user then e else wrap "storing device: " e ""

abbrev result_of : Device → String × ℕ → RegisterResult
result_of d (t, x) = record { device = d; token = t; expires_at = x }

-- What follows Validate, and what follows the Upsert.
module _ {State : Type 0} where
  unfoldable pub issued :
      (Device → Result (String × ℕ)) → State × Result Device → State × Result RegisterResult
  unfolding store_error
  issued issue (s, err e) = (s, err (store_error e))
  issued issue (s, ok d) =
      (s, map_error (prefixed "issuing device token: ") (issue d) >>= λ t. ok (result_of d t))

  unfoldable pub stored :
      Repository State
      → (Device → Result (String × ℕ))
      → Device
      → Result (Unit {0})
      → State
      → State × Result RegisterResult
  unfolding issued
  stored repo issue d (err e) s = (s, err (invalid_input (error_text e)))
  stored repo issue d (ok tt) s = issued issue (repo.upsert d s)

  -- Service.Register
  unfoldable pub register :
      Repository State
      → (Device → Result (String × ℕ))
      → (String → Result (Unit {0}))
      → String
      → RegisterInput
      → State
      → State × Result RegisterResult
  unfolding stored validate_input
  register repo issue parse_uuid user_id i s =
      if user_id == ""
      then (s, err empty_user)
      else stored repo issue (device_of user_id i) (validate_input parse_uuid i) s

  -- Service.List
  unfoldable pub list : Repository State → String → State → Result (List Device)
  list repo user_id s =
      if user_id == ""
      then err empty_user
      else map_error (prefixed "listing devices: ") (repo.list_by_user user_id s)

  -- Service.IsOwner
  unfoldable pub is_owner : Repository State → String → String → State → Result Bool
  unfolding list
  is_owner repo user_id device_id s =
      list repo user_id s >>= λ devices. ok (any (λ d. d.id == device_id) devices)

-- A registration that succeeds: the parts that Register put together.
pub record IsRegistered {State : Type 0} (repo : Repository State)
    (issue : Device → Result (String × ℕ)) (parse_uuid : String → Result (Unit {0}))
    (user_id : String) (i : RegisterInput) (s after : State) (r : RegisterResult) : Type 0 where
  pub user : ¬ (user_id ≡ "")
  pub valid : validate_input parse_uuid i ≡ ok tt
  pub kept : repo.upsert (device_of user_id i) s ≡ (after, ok r.device)
  pub token : issue r.device ≡ ok (r.token, r.expires_at)

module _ {State : Type 0} (repo : Repository State) (issue : Device → Result (String × ℕ))
    (parse_uuid : String → Result (Unit {0})) where
  ok_inj : {a b : RegisterResult} → ok a ≡ ok b → a ≡ b
  ok_inj e = cc

  issued-ok :
      (x : State × Result Device) (after : State) (r : RegisterResult)
      → issued issue x ≡ (after, ok r)
      → (x ≡ (after, ok r.device)) × (issue r.device ≡ ok (r.token, r.expires_at))
  unfolding issued
  issued-ok (s, err e) after r h = let bad = ap (λ (x : State × Result RegisterResult). x.1) h in cc
  issued-ok (s, ok d) after r h = elim (Result-cases (issue d)) [
    | inl ((t, x), e) ↦
        let g = rw e at h in
        let q = ok_inj (ap (λ (y : State × Result RegisterResult). y.1) g) in
        let same = ap (λ (z : RegisterResult). z.device) q in
        let token = ap (λ (z : RegisterResult). z.token) q in
        let expiry = ap (λ (z : RegisterResult). z.expires_at) q in
        let state = ap (λ (y : State × Result RegisterResult). y.0) g in
        (cc (state, same), cc (e, same, token, expiry))
    | inr (er, e) ↦ let bad = ap (λ (y : State × Result RegisterResult). y.1) (rw e at h) in cc
  ]

  registered :
      (user_id : String) (i : RegisterInput) (s after : State) (r : RegisterResult)
      → register repo issue parse_uuid user_id i s ≡ (after, ok r)
      → IsRegistered repo issue parse_uuid user_id i s after r
  unfolding register stored
  registered user_id i s after r h = elim (==-cases user_id "") [
    | inl (q, e) ↦ let bad = ap (λ (y : State × Result RegisterResult). y.1) (rw e at h) in cc
    | inr e ↦ elim (Result-cases (validate_input parse_uuid i)) [
      | inl (_, v) ↦
          let (kept, token) =
            issued-ok (repo.upsert (device_of user_id i) s) after r (rw (e, v) at h) in
          record {
            user = λ q. ground (arith, eq_iff user_id "");
            valid = v;
            kept = kept;
            token = token;
          }
      | inr (er, v) ↦
          let bad = ap (λ (y : State × Result RegisterResult). y.1) (rw (e, v) at h) in cc
    ]
  ]

  IsRegistered-register :
      (user_id : String) (i : RegisterInput) (s after : State) (r : RegisterResult)
      → IsRegistered repo issue parse_uuid user_id i s after r
      → register repo issue parse_uuid user_id i s ≡ (after, ok r)
  unfolding register stored issued
  IsRegistered-register user_id i s after r g =
      rw (==_false user_id "" g.user, g.valid, g.kept, g.token)

  -- Over any repository, issuer and parser of ids, Register succeeds with a state and a result
  -- exactly when the user id is not empty, the input is valid, the Upsert of the input as the
  -- user's device leaves that state and the result's device, and the issuer gives the result's
  -- token for that device.
  pub register-IsRegistered :
      (user_id : String) (i : RegisterInput) (s after : State) (r : RegisterResult)
      → (register repo issue parse_uuid user_id i s ≡ (after, ok r))
        ↔ IsRegistered repo issue parse_uuid user_id i s after r
  register-IsRegistered user_id i s after r =
      (registered user_id i s after r, IsRegistered-register user_id i s after r)
