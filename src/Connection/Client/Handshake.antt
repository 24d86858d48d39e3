-- ===== src/Connection/Client/Handshake.antt =====
-- When an attempt to connect counts as authenticated, and which commands it takes.
use deploy_os.Base.{[], some, false, String, ◌≡◌, refl, ◌↔◌, Bool, true, none, arith}
use deploy_os.Go.Errors.{Result, ok, err}
use deploy_os.Proto.{AuthenticateResponse, Envelope, authenticate_response}
use deploy_os.Connection.Client.{
  other, get_authenticate_response, DeviceInfo, Network, auth_envelope, received, connect_once,
  after_first, after_dial,
}

-- Everything up to the control plane's positive answer went well.
pub record IsUp (device : DeviceInfo) (tok : Result String) (net : Network) : Type 0 where
  pub token : String
  pub loaded : tok ≡ ok token
  pub dialed : net.dial ≡ none
  pub opened : net.open_stream ≡ none
  pub delivered : net.sent (auth_envelope device token) ≡ none
  pub response : AuthenticateResponse
  pub answered : net.first ≡ ok (authenticate_response response)
  pub positive : response.authenticated ≡ true

IsUp-connect_once :
    (has_handler : Bool) (device : DeviceInfo) (tok : Result String) (net : Network)
    → IsUp device tok net
    → ((connect_once has_handler device tok net).authenticated ≡ true)
      × ((connect_once has_handler device tok net).commands ≡ received has_handler net.incoming)
unfolding connect_once
IsUp-connect_once has_handler device tok net u = (
  rw (u.loaded, connect_once, u.dialed, u.opened, u.delivered, u.answered, u.positive),
  rw (u.loaded, connect_once, u.dialed, u.opened, u.delivered, u.answered, u.positive),
)

-- The last stage: the first message is a positive answer.
first_positive :
    (has_handler : Bool) (request : Envelope) (net : Network) (first : Result Envelope)
    → (after_first has_handler request net first).authenticated ≡ true
    → (resp : AuthenticateResponse) × (first ≡ ok (authenticate_response resp))
      × (resp.authenticated ≡ true)
unfolding after_first
first_positive has_handler request net (err e) h = cc
first_positive has_handler request net (ok (authenticate_response resp)) h =
    (resp, refl, ground arith)
first_positive has_handler request net (ok _) h = cc

stages :
    (has_handler : Bool) (request : Envelope) (net : Network)
    → (after_dial has_handler request net net.dial).authenticated ≡ true
    → (net.dial ≡ none)
      × (net.open_stream ≡ none)
      × (net.sent request ≡ none)
      × ((after_first has_handler request net net.first).authenticated ≡ true)
unfolding after_dial
stages has_handler request net h = ground arith

connect_once-IsUp :
    (has_handler : Bool) (device : DeviceInfo) (tok : Result String) (net : Network)
    → (connect_once has_handler device tok net).authenticated ≡ true
    → IsUp device tok net
unfolding connect_once
connect_once-IsUp has_handler device (err e) net h = cc
connect_once-IsUp has_handler device (ok token) net h =
    let (dialed, opened, delivered, first) =
      stages has_handler (auth_envelope device token) net h in
    let (resp, answered, positive) =
      first_positive has_handler (auth_envelope device token) net net.first first in
    record {
      token = token;
      loaded = refl;
      dialed = dialed;
      opened = opened;
      delivered = delivered;
      response = resp;
      answered = answered;
      positive = positive;
    }

-- An attempt counts as authenticated exactly when the token was loaded, dialing, opening the
-- stream and sending the request went well, and the first message received is a positive
-- authenticate response; it then takes the commands of the receive loop.
pub connect_once_lem :
    (has_handler : Bool) (device : DeviceInfo) (tok : Result String) (net : Network)
    → let attempt = connect_once has_handler device tok net in
      ((attempt.authenticated ≡ true) ↔ IsUp device tok net)
      × ((attempt.authenticated ≡ true) → attempt.commands ≡ received has_handler net.incoming)
connect_once_lem has_handler device tok net = (
  (
    connect_once-IsUp has_handler device tok net,
    λ u. (IsUp-connect_once has_handler device tok net u).0,
  ),
  λ h.
      (IsUp-connect_once has_handler device tok net
        (connect_once-IsUp has_handler device tok net h)).1,
)

-- The attempt's request is sent, and the first message received is this one.
pub record IsReceiving (device : DeviceInfo) (token : String) (first : Envelope) (net : Network)
    : Type 0 where
  pub dialed : net.dial ≡ none
  pub opened : net.open_stream ≡ none
  pub delivered : net.sent (auth_envelope device token) ≡ none
  pub answered : net.first ≡ ok first

-- A first message that is no authenticate response ends the attempt.
pub connect_once-not_a_response :
    (has_handler : Bool) (device : DeviceInfo) (token : String) (first : Envelope) (net : Network)
    → get_authenticate_response first ≡ none
    → IsReceiving device token first net
    → connect_once has_handler device (ok token) net ≡ record {
      authenticated = false;
      error = some (other "expected an authenticate response as the first message");
      request = some (auth_envelope device token);
      commands = [];
    }
unfolding connect_once after_first
connect_once-not_a_response has_handler device token first net none_held r =
    rw (r.dialed, connect_once, r.opened, r.delivered, r.answered, none_held)
