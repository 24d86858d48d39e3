-- ===== src/Examples/Connection.antt =====
-- The Connection Manager, the handshake and the agent's client at concrete inputs.
use deploy_os.Base.{
  ◌*◌, ◌^◌, min, String, ◌≡◌, refl, ◌↔◌, true, false, none, List, [], ◌∷◌, ◌++◌, arith, ◌==◌,
  if◌then◌else◌, All,
}
use deploy_os.Go.Errors.{sentinel, other, Result, ok, err}
use deploy_os.Proto.{authenticate_response, command_request, empty, get_device_token, get_id}
use deploy_os.Connection.Manager.{State, Call, adds, removes}
use deploy_os.Connection.Auth.{
  authenticate, IsAuthentic, authenticate-IsAuthentic, Handshake, authenticate-Handshake,
}
use deploy_os.Connection.Client.{
  jitter, Round, run, DeviceInfo, Network, default_initial_backoff, default_max_backoff,
  auth_envelope, err_eof,
}
use deploy_os.Connection.Client.Backoff.{InBounds, run-All, run-doubling}

laptop : State
laptop = record { device_id = "laptop"; user_id = "user-1"; session_id = "s-1"; connected_at = 5 }

calls : List Call
calls = adds laptop ∷ removes "nas" ∷ []

-- A verifier that knows one token.
abbrev verify : String → Result (String × String)
verify tok = if tok == "good" then ok ("laptop", "user-1") else err (other "bad token")

abbrev info : DeviceInfo
info = record {
  id = "laptop";
  hostname = "h";
  operating_system = "linux";
  architecture = "arm64";
  deployos_version = "dev";
}

authenticate-IsAuthentic_example :
    (authenticate verify (ok (auth_envelope info "good")) ≡ ([], ok ("laptop", "user-1")))
    ↔ IsAuthentic verify (ok (auth_envelope info "good")) "laptop" "user-1"
authenticate-IsAuthentic_example =
    authenticate-IsAuthentic verify (ok (auth_envelope info "good")) "laptop" "user-1"

-- The request that the client sends is accepted by the server whose verifier knows its token.
client_accepted :
    authenticate verify (ok (auth_envelope info "good")) ≡ ([], ok ("laptop", "user-1"))
unfolding authenticate auth_envelope get_device_token get_id
client_accepted = refl

authenticate-Handshake_example :
    Handshake verify
      (auth_envelope info "bad")
      (authenticate verify (ok (auth_envelope info "bad")))
authenticate-Handshake_example = authenticate-Handshake verify (auth_envelope info "bad")

abbrev up : Round
up = record { authenticated = true; draw = 0 }

abbrev down : Round
down = record { authenticated = false; draw = 4503599627370496 }

run-All_example :
    All
      (InBounds default_initial_backoff default_max_backoff)
      (run default_initial_backoff default_max_backoff (up ∷ down ∷ []))
run-All_example =
    run-All default_initial_backoff default_max_backoff (up ∷ down ∷ []) (omega arith)
      (omega arith, (omega arith, tt))

run-doubling_example :
    run default_initial_backoff default_max_backoff ((down ∷ [] ++ up ∷ (down ∷ [])) ++ down ∷ [])
    ≡ run default_initial_backoff default_max_backoff (down ∷ [] ++ up ∷ (down ∷ []))
      ++ jitter (min (default_initial_backoff * 2 ^ 2) default_max_backoff) 4503599627370496 ∷ []
run-doubling_example =
    run-doubling default_initial_backoff default_max_backoff (down ∷ []) up (down ∷ []) down
      (omega arith) refl (refl, tt) refl

abbrev net : Network
net = record {
  dial = none;
  open_stream = none;
  sent = λ e. none;
  first =
      ok (authenticate_response (record { authenticated = true; error = ""; session_id = "s-1" }));
  incoming = command_request (record { id = "c-1"; kind = "PING"; arguments = none }) ∷ empty ∷ [];
  last = sentinel err_eof;
}

-- The waits of a server that stays away: 1, 2, 4, 8, 16, 30 and 30 seconds, with the middle draw.
waits :
    run default_initial_backoff default_max_backoff
      (down ∷ down ∷ down ∷ down ∷ down ∷ down ∷ down ∷ [])
    ≡ 1_000_000_000 ∷ 2_000_000_000 ∷ 4_000_000_000 ∷ 8_000_000_000 ∷ 16_000_000_000
      ∷ 30_000_000_000 ∷ 30_000_000_000 ∷ []
unfolding run
waits = refl
