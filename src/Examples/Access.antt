-- ===== src/Examples/Access.antt =====
-- The authentication of a user and the authorization of commands at concrete inputs.
use deploy_os.Base.{ℕ, String, ◌≡◌, refl, ◌↔◌, some, [], nat_eq, ◌==◌, if◌then◌else◌}
use deploy_os.Go.Errors.{other, Result, ok, err}
use deploy_os.Auth.{Supabase, UserRequest, UserResponse, authenticate_user}
use deploy_os.CommandBus.Wire.{Request}
use deploy_os.CommandBus.Handler.{
  SendCommandRequest, send, refuse, plan, IsAuthorized, plan-IsAuthorized,
}
use deploy_os.Devices.Service.{is_owner}
use deploy_os.Devices.Table.{list_by_user, repository}
use deploy_os.Examples.Devices.{ann, directory, table}

-- An identity service that knows one token.
abbrev supabase : Supabase
supabase = record { base_url = "https://x.supabase.co"; anon_key = "anon" }

abbrev service : UserRequest → Result UserResponse
service r = ok (
    if r.authorization == "Bearer ann"
    then record { status = 200; body = ok ann }
    else record { status = 401; body = err (other "no body") })

abbrev itoa : ℕ → String
itoa n = if nat_eq n 500 then "500" else "502"

ann_known : authenticate_user itoa service supabase "ann" ≡ ok ann
unfolding authenticate_user
ann_known = refl

abbrev pub ping : SendCommandRequest
ping = record { kind = "PING"; arguments = [] }

abbrev pub ping_request : Request
ping_request = record { id = ""; kind = "PING"; arguments = [] }

pub ann_sends :
    plan directory
      (λ user_id id. is_owner repository user_id id table)
      "Bearer ann"
      "d-1"
      (some ping)
    ≡ send "d-1" ping_request
unfolding plan is_owner list_by_user
ann_sends = refl

plan-IsAuthorized_example :
    (plan directory
        (λ user_id id. is_owner repository user_id id table)
        "Bearer ann"
        "d-1"
        (some ping)
      ≡ send "d-1" ping_request)
    ↔ IsAuthorized directory
        (λ user_id id. is_owner repository user_id id table)
        "Bearer ann"
        "d-1"
        (some ping)
        "d-1"
        ping_request
plan-IsAuthorized_example =
    plan-IsAuthorized directory (λ user_id id. is_owner repository user_id id table) "Bearer ann"
      "d-1" "d-1" ping_request (some ping)

bob_refused :
    plan directory
      (λ user_id id. is_owner repository user_id id table)
      "Bearer bob"
      "d-1"
      (some ping)
    ≡ refuse 404 "device not found"
unfolding plan is_owner list_by_user
bob_refused = refl
