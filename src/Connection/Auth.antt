-- ===== src/Connection/Auth.antt =====
-- internal/connection/server.go, Server.authenticate: the handshake on a new stream. The token
-- verifier (the interface TokenVerifier) is a parameter. What the handler writes on the stream comes
-- first in the result.
use deploy_os.Base.{
  ◌⊎◌, Bool-cases, String, ◌≡◌, refl, ap, ◌∙◌, ◌↔◌, inl, inr, true, false, not, ◌||◌, Option, none,
  some, List, [], ◌∷◌, arith, eq_iff, eq_refl, ◌==◌, if◌then◌else◌, ==-cases, ==_false,
}
use deploy_os.Go.Errors.{
  GoError, Result, ok, err, Result-cases, status_error, invalid_argument, unauthenticated,
}
use deploy_os.Proto.{
  AuthenticateRequest, Envelope, authenticate_request, authenticate_response,
  get_authenticate_request, get_device_token, get_id,
}

-- Server.sendAuthFailure
pub auth_failure : String → Envelope
auth_failure reason =
    authenticate_response (record { authenticated = false; error = reason; session_id = "" })

abbrev pub reason_token : String
reason_token = "invalid or expired device token"

abbrev pub reason_mismatch : String
reason_mismatch = "device token does not match presented device id"

abbrev pub reason_first : String
reason_first = "first message must be an authenticate request"

-- The presented id against the one that the token is for.
check_device : String → String × String → List Envelope × Result (String × String)
unfolding auth_failure
check_device presented (device_id, user_id) =
    if presented == "" || not (presented == device_id)
    then (auth_failure reason_mismatch ∷ [], err (status_error unauthenticated reason_mismatch))
    else ([], ok (device_id, user_id))

check_request :
    (String → Result (String × String))
    → AuthenticateRequest
    → List Envelope × Result (String × String)
unfolding check_device auth_failure
check_request verify req = elim (verify (get_device_token req.connection)) [
  | err e ↦ (auth_failure reason_token ∷ [], err (status_error unauthenticated reason_token))
  | ok claims ↦ check_device (get_id req.device) claims
]

check_first :
    (String → Result (String × String))
    → Option AuthenticateRequest
    → List Envelope × Result (String × String)
unfolding check_request
check_first verify none = ([], err (status_error invalid_argument reason_first))
check_first verify (some req) = check_request verify req

-- Server.authenticate, from what the first Recv gave.
unfoldable pub authenticate :
    (String → Result (String × String)) → Result Envelope → List Envelope × Result (String × String)
unfolding check_first get_authenticate_request
authenticate verify (err e) = ([], err e)
authenticate verify (ok envelope) = check_first verify (get_authenticate_request envelope)

-- The stream presents a token that verifies for the device and the user, with the device's own id.
pub record IsAuthentic (verify : String → Result (String × String)) (first : Result Envelope)
    (device_id user_id : String) : Type 0 where
  pub request : AuthenticateRequest
  pub presented : first ≡ ok (authenticate_request request)
  pub verified : verify (get_device_token request.connection) ≡ ok (device_id, user_id)
  pub own_id : get_id request.device ≡ device_id
  pub named : ¬ (device_id ≡ "")

check_device-ok :
    (p d u d' u' : String)
    → (check_device p (d, u)).1 ≡ ok (d', u')
    → (d ≡ d') × (u ≡ u') × (p ≡ d) × ¬ (d ≡ "")
unfolding check_device
check_device-ok p d u d' u' h = (
  ground arith,
  ground arith,
  ground (arith, eq_iff p d),
  λ e. ground (arith, eq_iff p d, eq_iff p ""),
)

check_request-ok :
    (verify : String → Result (String × String)) (req : AuthenticateRequest) (d u : String)
    → (check_request verify req).1 ≡ ok (d, u)
    → IsAuthentic verify (ok (authenticate_request req)) d u
unfolding check_request
check_request-ok verify req d u h = elim (Result-cases (verify (get_device_token req.connection))) [
  | inl ((d0, u0), e) ↦
      let (same_d, same_u, own, named) =
        check_device-ok (get_id req.device) d0 u0 d u (rw (e, check_request) at h) in
      record {
        request = req;
        presented = refl;
        verified = e ∙ cc (same_d, same_u);
        own_id = own ∙ same_d;
        named = λ q. named (same_d ∙ q);
      }
  | inr (er, e) ↦ let bad = rw (e, check_request) at h in cc
]

first-ok :
    (verify : String → Result (String × String)) (env : Envelope) (d u : String)
    → (authenticate verify (ok env)).1 ≡ ok (d, u)
    → IsAuthentic verify (ok env) d u
unfolding authenticate check_first
first-ok verify (authenticate_request r) d u h = check_request-ok verify r d u h
first-ok verify _ d u h = cc

IsAuthentic-first :
    (verify : String → Result (String × String)) (first : Result Envelope) (d u : String)
    → IsAuthentic verify first d u
    → authenticate verify first ≡ ([], ok (d, u))
unfolding authenticate
IsAuthentic-first verify first d u a = rw (
  a.presented,
  a.verified,
  authenticate,
  check_request,
  a.own_id,
  ==_false d "" a.named,
  eq_refl d,
)

accepted :
    (verify : String → Result (String × String)) (first : Result Envelope) (d u : String)
    → authenticate verify first ≡ ([], ok (d, u))
    → IsAuthentic verify first d u
unfolding authenticate
accepted verify (err e) d u h = cc
accepted verify (ok env) d u h =
    first-ok verify env d u (ap (λ (x : List Envelope × Result (String × String)). x.1) h)

-- The handshake yields a device and a user, and writes nothing on the stream, exactly when the
-- first message is an authenticate request whose token verifies for them and whose device id is
-- the token's and not empty.
pub authenticate-IsAuthentic :
    (verify : String → Result (String × String)) (first : Result Envelope) (d u : String)
    → (authenticate verify first ≡ ([], ok (d, u))) ↔ IsAuthentic verify first d u
authenticate-IsAuthentic verify first d u =
    (accepted verify first d u, IsAuthentic-first verify first d u)

-- How a handshake that read a message ends.
pub data Handshake (verify : String → Result (String × String)) (env : Envelope)
    (r : List Envelope × Result (String × String)) : Type 0 where
  accepts :
      (d u : String)
      → IsAuthentic verify (ok env) d u
      → r ≡ ([], ok (d, u))
      → Handshake verify env r
  not_a_request :
      get_authenticate_request env ≡ none
      → r ≡ ([], err (status_error invalid_argument reason_first))
      → Handshake verify env r
  rejects_token :
      (req : AuthenticateRequest) (cause : GoError)
      → env ≡ authenticate_request req
      → verify (get_device_token req.connection) ≡ err cause
      → r ≡ (auth_failure reason_token ∷ [], err (status_error unauthenticated reason_token))
      → Handshake verify env r
  rejects_device :
      (req : AuthenticateRequest) (d u : String)
      → env ≡ authenticate_request req
      → verify (get_device_token req.connection) ≡ ok (d, u)
      → (get_id req.device ≡ "") ⊎ ¬ (get_id req.device ≡ d)
      → r ≡ (auth_failure reason_mismatch ∷ [], err (status_error unauthenticated reason_mismatch))
      → Handshake verify env r

-- The test of the presented id fails for one of two causes.
refused_id :
    (presented d : String)
    → (presented == "" || not (presented == d)) ≡ true
    → (presented ≡ "") ⊎ ¬ (presented ≡ d)
refused_id presented d h = elim (==-cases presented "") [
  | inl (q, e) ↦ inl q
  | inr e ↦ inr (λ q. ground (arith, eq_iff presented d))
]

device-Handshake :
    (verify : String → Result (String × String)) (req : AuthenticateRequest) (d u : String)
    → verify (get_device_token req.connection) ≡ ok (d, u)
    → Handshake verify (authenticate_request req) (check_device (get_id req.device) (d, u))
unfolding check_device
device-Handshake verify req d u e =
    let presented = get_id req.device in
    elim (Bool-cases (presented == "" || not (presented == d))) [
      | inl bad ↦ rejects_device req d u refl e (refused_id presented d bad) (rw bad)
      | inr good ↦
          accepts d u
            (record {
              request = req;
              presented = refl;
              verified = e;
              own_id = ground (arith, eq_iff presented d);
              named = λ q. ground (arith, eq_iff presented d, eq_iff presented "");
            })
            (rw good)
    ]

request-Handshake :
    (verify : String → Result (String × String)) (req : AuthenticateRequest)
    → Handshake verify (authenticate_request req) (check_request verify req)
unfolding check_request
request-Handshake verify req = elim (Result-cases (verify (get_device_token req.connection))) [
  | inl ((d, u), e) ↦ rw (e, check_request) (device-Handshake verify req d u e)
  | inr (er, e) ↦ rejects_token req er refl e (rw (e, check_request))
]

-- A handshake that has read a message accepts an authentic request with nothing written; or
-- answers InvalidArgument with nothing written when the message is no authenticate request; or
-- writes exactly one failure response, whose reason is that of its Unauthenticated error: that
-- of the token when it does not verify, and that of the mismatch when the token verifies and the
-- presented device id is empty or not the token's.
pub authenticate-Handshake :
    (verify : String → Result (String × String)) (env : Envelope)
    → Handshake verify env (authenticate verify (ok env))
unfolding authenticate
authenticate-Handshake verify (authenticate_request req) = request-Handshake verify req
authenticate-Handshake verify _ = not_a_request refl refl
