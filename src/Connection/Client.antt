-- ===== src/Connection/Client.antt =====
-- internal/connection/client.go: the agent's side. The network is a parameter: what dialing, sending and
-- receiving gave.
pub mod Backoff
pub mod Handshake
pub mod Session
pub mod Loop
use deploy_os.Base.{
  ℕ, ◌+◌, ◌*◌, ◌/◌, min, String, concat, Bool, true, false, not, Option, none, some, List, [], ◌∷◌,
  if◌then◌else◌,
}
use deploy_os.Go.Errors.{Sentinel, GoError, other, wrap, is, Result, ok, err}
use deploy_os.Proto.{
  Connection, Device, Metadata, AuthenticateRequest, AuthenticateResponse, Command, CommandResult,
  Envelope, authenticate_request, authenticate_response, command_request, command_response, empty,
  get_authenticate_request, get_authenticate_response, get_command_request, get_command_response,
  get_device_token, get_id,
}

abbrev pub protocol_version : String
protocol_version = "v1"

pub record DeviceInfo : Type 0 where
  pub id : String
  pub hostname : String
  pub operating_system : String
  pub architecture : String
  pub deployos_version : String

-- The first message of a connection.
unfoldable pub auth_envelope : DeviceInfo → String → Envelope
auth_envelope device tok = authenticate_request (record {
  connection = some (record { device_token = tok; protocol_version = protocol_version });
  device = some (record {
    id = device.id;
    hostname = device.hostname;
    operating_system = device.operating_system;
    architecture = device.architecture;
    deployos_version = device.deployos_version;
  });
})

-- What the network answers on one attempt: opening the stream, sending the request, the first message
-- received, the messages after it, and the error that ends the stream.
pub record Network : Type 0 where
  pub dial : Option GoError
  pub open_stream : Option GoError
  pub sent : Envelope → Option GoError
  pub first : Result Envelope
  pub incoming : List Envelope
  pub last : GoError

abbrev pub err_eof : Sentinel
err_eof = record { name = "io.EOF"; text = "EOF" }

-- What one attempt does: whether it authenticated, the error it returns, the envelope it sent if any, and the
-- commands that it hands to the command handler, in the order received.
pub record Attempt : Type 0 where
  pub authenticated : Bool
  pub error : Option GoError
  pub request : Option Envelope
  pub commands : List Command

abbrev failed : GoError → Option Envelope → Attempt
failed e request = record {
  authenticated = false;
  error = some e;
  request = request;
  commands = [];
}

-- `if cmd == nil || c.onCommand == nil { continue }`, else the command goes to a goroutine of its own.
abbrev take_command : Bool → Option Command → List Command → List Command
take_command true (some c) later = c ∷ later
take_command _ _ later = later

-- The receive loop, with a command handler registered or not.
unfoldable pub received : Bool → List Envelope → List Command
received has_handler [] = []
received has_handler (envelope ∷ rest) =
    take_command has_handler (get_command_request envelope) (received has_handler rest)

-- errors.Is(err, io.EOF) is a clean end.
unfoldable pub loop_error : GoError → Option GoError
loop_error e = if is e err_eof then none else some e

-- connectOnce, from the answer to the request on.
unfoldable pub after_response : Bool → Envelope → Network → Option AuthenticateResponse → Attempt
unfolding received loop_error
after_response has_handler request net none =
    failed (other "expected an authenticate response as the first message") (some request)
after_response has_handler request net (some resp) =
    if not resp.authenticated
    then failed (other (concat ("control plane rejected authentication: " ∷ resp.error ∷ [])))
        (some request)
    else record {
      authenticated = true;
      error = loop_error net.last;
      request = some request;
      commands = received has_handler net.incoming;
    }

-- connectOnce, from the first message received on.
pub after_first : Bool → Envelope → Network → Result Envelope → Attempt
unfolding after_response get_authenticate_response
after_first has_handler request net (err e) =
    failed (wrap "receiving authenticate response: " e "") (some request)
after_first has_handler request net (ok envelope) =
    after_response has_handler request net (get_authenticate_response envelope)

pub after_send : Bool → Envelope → Network → Option GoError → Attempt
unfolding after_first
after_send has_handler request net (some e) =
    failed (wrap "sending authenticate request: " e "") (some request)
after_send has_handler request net none = after_first has_handler request net net.first

pub after_open : Bool → Envelope → Network → Option GoError → Attempt
unfolding after_send
after_open has_handler request net (some e) = failed (wrap "opening connection stream: " e "") none
after_open has_handler request net none = after_send has_handler request net (net.sent request)

pub after_dial : Bool → Envelope → Network → Option GoError → Attempt
unfolding after_open
after_dial has_handler request net (some e) = failed (wrap "dialing control plane: " e "") none
after_dial has_handler request net none = after_open has_handler request net net.open_stream

-- Client.connectOnce, with what the token source gave
unfoldable pub connect_once : Bool → DeviceInfo → Result String → Network → Attempt
unfolding after_dial auth_envelope
connect_once has_handler device (err e) net = failed (wrap "loading device token: " e "") none
connect_once has_handler device (ok tok) net =
    after_dial has_handler (auth_envelope device tok) net net.dial

-- A draw of rand.Float64() is `n / 2^53` with n < 2^53; n = 2^53 stands for a factor that float64 rounds up to 1.2.
abbrev pub float_steps : ℕ
float_steps = 9007199254740992

-- jitter: d * (0.8 + 0.4 * n / 2^53), truncated. The rounding of the source's float64 product, which may move a wait by
-- a nanosecond, is not modelled.
unfoldable pub jitter : ℕ → ℕ → ℕ
jitter d n = d * (8 * float_steps + 4 * n) / (10 * float_steps)

abbrev pub default_initial_backoff : ℕ
default_initial_backoff = 1_000_000_000

abbrev pub default_max_backoff : ℕ
default_max_backoff = 30_000_000_000

-- One round of Run's loop that came to its wait: whether the attempt authenticated, and the draw for the jitter.
pub record Round : Type 0 where
  pub authenticated : Bool
  pub draw : ℕ

-- The backoff that the round waits by, before jitter.
abbrev pub reset : ℕ → Round → ℕ → ℕ
reset initial r backoff = if r.authenticated then initial else backoff

-- The backoff behind a round.
unfoldable pub next_backoff : ℕ → ℕ → Round → ℕ → ℕ
next_backoff initial max_backoff r backoff = min (reset initial r backoff * 2) max_backoff

-- Client.Run: the waits of the rounds, until the context is canceled behind the last one.
unfoldable pub run_from : ℕ → ℕ → ℕ → List Round → List ℕ
unfolding next_backoff jitter
run_from initial max_backoff backoff [] = []
run_from initial max_backoff backoff (r ∷ rs) =
    jitter (reset initial r backoff) r.draw
    ∷ run_from initial max_backoff (next_backoff initial max_backoff r backoff) rs

unfoldable pub run : ℕ → ℕ → List Round → List ℕ
unfolding run_from
run initial max_backoff rs = run_from initial max_backoff initial rs
