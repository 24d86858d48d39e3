-- ===== src/CommandBus/Handler.antt =====
-- internal/commandbus/handler.go, Send: who may send a command to a device, and the status of each answer. The
-- authenticator, the ownership check (OwnershipChecker) and the JSON decoder's answer are parameters.
pub mod Access
use deploy_os.Base.{
  ℕ, String, ◌≡◌, refl, ◌↔◌, ◌⊎◌, inl, inr, Bool, true, false, not, Option, none, some, List, arith,
  eq_iff, ◌==◌, if◌then◌else◌, ==-cases, ==_false,
}
use deploy_os.Go.Errors.{Sentinel, is, Result, ok, err}
use deploy_os.Auth.{User, Reply, success, failure, caller, IsCaller, caller-IsCaller}
use deploy_os.CommandBus.Wire.{Request, Response}
use deploy_os.CommandBus.Service.{err_device_not_connected, not_connected}
use deploy_os.Types.{validate_agent_id}

-- context.DeadlineExceeded
abbrev pub deadline_exceeded : Sentinel
deadline_exceeded = record { name = "context.DeadlineExceeded"; text = "context deadline exceeded" }

-- api.SendCommandRequest
pub record SendCommandRequest : Type 0 where
  pub kind : String
  pub arguments : List (String × String)

-- The request that the handler passes to Service.Send, or the status and the message of its refusal.
pub data Plan : Type 0 where
  refuse : ℕ → String → Plan
  send : String → Request → Plan

unfoldable pub plan_body : String → Option SendCommandRequest → Plan
plan_body device_id none = refuse 400 "invalid request body"
plan_body device_id (some req) =
    if req.kind == ""
    then refuse 400 "kind must not be empty"
    else send device_id (record { id = ""; kind = req.kind; arguments = req.arguments })

unfoldable pub plan_owned : String → Option SendCommandRequest → Result Bool → Plan
unfolding plan_body
plan_owned device_id body (err e) = refuse 500 "internal error"
plan_owned device_id body (ok false) = refuse 404 "device not found"
plan_owned device_id body (ok true) = plan_body device_id body

unfoldable pub plan_device :
    (String → String → Result Bool)
    → User
    → String
    → Option SendCommandRequest
    → Result (Unit {0})
    → Plan
unfolding plan_owned
plan_device is_owner user device_id body (err e) = refuse 400 "invalid device id"
plan_device is_owner user device_id body (ok tt) =
    plan_owned device_id body (is_owner user.id device_id)

unfoldable pub plan_as :
    (String → String → Result Bool) → String → Option SendCommandRequest → String ⊎ User → Plan
unfolding plan_device validate_agent_id
plan_as is_owner device_id body (inl m) = refuse 401 m
plan_as is_owner device_id body (inr user) =
    plan_device is_owner user device_id body (validate_agent_id device_id)

-- Handler.Send, up to the call of Service.Send
unfoldable pub plan :
    (String → Result User)
    → (String → String → Result Bool)
    → String
    → String
    → Option SendCommandRequest
    → Plan
unfolding plan_as caller
plan authenticate is_owner header device_id body =
    plan_as is_owner device_id body (caller authenticate header)

-- The switch on what Service.Send returned
unfoldable pub answer : Result Response → Reply Response
answer (ok r) = success 200 r
answer (err e) =
    if is e err_device_not_connected
    then failure 503 "device is not connected"
    else if is e deadline_exceeded
    then failure 504 "command timed out waiting for a response"
    else failure 500 "internal error"

carry_out : (String → Request → Result Response) → Plan → Reply Response
unfolding answer
carry_out service_send (refuse status m) = failure status m
carry_out service_send (send device_id req) = answer (service_send device_id req)

-- Handler.Send
unfoldable pub handle_send :
    (String → Result User)
    → (String → String → Result Bool)
    → (String → Request → Result Response)
    → String
    → String
    → Option SendCommandRequest
    → Reply Response
unfolding plan carry_out
handle_send authenticate is_owner service_send header device_id body =
    carry_out service_send (plan authenticate is_owner header device_id body)

-- The caller owns the named device, and the body asks for a command of some kind.
pub record IsAuthorized (authenticate : String → Result User)
    (is_owner : String → String → Result Bool) (header device_id : String)
    (body : Option SendCommandRequest) (to : String) (req : Request) : Type 0 where
  pub user : User
  pub asked : SendCommandRequest
  pub by : IsCaller authenticate header user
  pub named : ¬ (device_id ≡ "")
  pub owner : is_owner user.id device_id ≡ ok true
  pub decoded : body ≡ some asked
  pub kind : ¬ (asked.kind ≡ "")
  pub target : to ≡ device_id
  pub request : req ≡ record { id = ""; kind = asked.kind; arguments = asked.arguments }

module _ (authenticate : String → Result User) (is_owner : String → String → Result Bool)
    (header device_id to : String) (req : Request) where
  body-IsAuthorized :
      (user : User) (body : Option SendCommandRequest)
      → IsCaller authenticate header user
      → ¬ (device_id ≡ "")
      → is_owner user.id device_id ≡ ok true
      → plan_body device_id body ≡ send to req
      → IsAuthorized authenticate is_owner header device_id body to req
  unfolding plan_body
  body-IsAuthorized user none c n o h = cc
  body-IsAuthorized user (some asked) c n o h = elim (==-cases asked.kind "") [
    | inl (q, e) ↦ let bad = rw e at h in cc
    | inr e ↦
        let g = rw e at h in
        record {
          user = user;
          asked = asked;
          by = c;
          named = n;
          owner = o;
          decoded = refl;
          kind = λ q. ground (arith, eq_iff asked.kind "");
          target = cc;
          request = cc;
        }
  ]

  owned-IsAuthorized :
      (user : User) (body : Option SendCommandRequest) (o : Result Bool)
      → IsCaller authenticate header user
      → ¬ (device_id ≡ "")
      → is_owner user.id device_id ≡ o
      → plan_owned device_id body o ≡ send to req
      → IsAuthorized authenticate is_owner header device_id body to req
  unfolding plan_owned
  owned-IsAuthorized user body (err e) c n o h = cc
  owned-IsAuthorized user body (ok false) c n o h = cc
  owned-IsAuthorized user body (ok true) c n o h = body-IsAuthorized user body c n o h

  caller-IsAuthorized :
      (body : Option SendCommandRequest) (c : String ⊎ User)
      → caller authenticate header ≡ c
      → plan_as is_owner device_id body c ≡ send to req
      → IsAuthorized authenticate is_owner header device_id body to req
  unfolding plan_as plan_device validate_agent_id
  caller-IsAuthorized body (inl m) e h = cc
  caller-IsAuthorized body (inr user) e h = elim (==-cases device_id "") [
    | inl (q, d) ↦ let bad = rw d at h in cc
    | inr d ↦
        owned-IsAuthorized user body (is_owner user.id device_id)
          ((caller-IsCaller authenticate header user).0 e)
          (λ q. ground (arith, eq_iff device_id "")) refl (rw d at h)
  ]

  IsAuthorized-plan :
      (body : Option SendCommandRequest)
      → IsAuthorized authenticate is_owner header device_id body to req
      → plan authenticate is_owner header device_id body ≡ send to req
  unfolding plan plan_as plan_device validate_agent_id plan_owned plan_body
  IsAuthorized-plan body a =
      rw
        (
          (caller-IsCaller authenticate header a.user).1 a.by,
          plan,
          plan_as,
          ==_false device_id "" a.named,
          a.owner,
          a.decoded,
          ==_false a.asked.kind "" a.kind,
          a.target,
          a.request,
        )
        refl

  -- The handler passes a request on to a device exactly when the header authenticates a user, the
  -- device id is not empty and is the one in the path, the ownership check says that the device is
  -- the user's, and the body was decoded and names a kind; the request then carries that kind and
  -- those arguments.
  pub plan-IsAuthorized :
      (body : Option SendCommandRequest)
      → (plan authenticate is_owner header device_id body ≡ send to req)
        ↔ IsAuthorized authenticate is_owner header device_id body to req
  unfolding plan
  plan-IsAuthorized body =
      (caller-IsAuthorized body (caller authenticate header) refl, IsAuthorized-plan body)
