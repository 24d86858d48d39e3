-- ===== src/Fleet/FirstMessage.antt =====
-- internal/connection/server.go, Connect, against internal/connection/client.go: a Send between the registration of a stream and
-- its authenticate response.
use deploy_os.Base.{ℕ, String, ◌≡◌, Bool, false, none, some, List, [], ◌∷◌, arith, eq_refl}
use deploy_os.Go.Errors.{other, ok}
use deploy_os.Proto.{Envelope, get_authenticate_response}
use deploy_os.Go.Map.{lookup-insert}
use deploy_os.Connection.Server
use deploy_os.Connection.Server.{
  Server, find_handle, run, opens, tracks, writes, responds, authenticated, Event,
}
use deploy_os.Connection.Client.{DeviceInfo, Network, auth_envelope, connect_once}
use deploy_os.Connection.Client.Handshake.{IsReceiving, connect_once-not_a_response}

-- Connect registers the stream, and before it has responded a Send finds it.
unfoldable pub overtaken : String → String → String → ℕ → Envelope → Server → Server
overtaken device_id user_id session_id now env s =
    let h = s.next_handle in
    run (opens device_id user_id session_id ∷ tracks h now ∷ writes h env ∷ responds h ∷ []) s

-- What the device receives on the stream.
abbrev pub written_on : ℕ → Server → List Envelope
written_on h s = elim (s.connections h) [ none ↦ [] | some c ↦ c.written ]

written_overtaken :
    (device_id user_id session_id : String) (now : ℕ) (env : Envelope) (s : Server)
    → written_on s.next_handle (overtaken device_id user_id session_id now env s)
      ≡ env ∷ authenticated session_id ∷ []
unfolding overtaken run Server.step Server.open_stream Server.track_connection Server.write_to
    Server.respond
written_overtaken device_id user_id session_id now env s = ground arith

-- Between the registration of a stream and its authenticate response a Send finds the stream's
-- handle. When it writes there, that envelope is the first message on the stream, with the
-- response behind it; and an attempt whose request was sent and that receives the envelope
-- first, where this is no authenticate response, fails and takes no command.
pub overtaken-connect_once :
    (device_id user_id session_id : String) (now : ℕ) (env : Envelope) (s : Server)
    (has_handler : Bool) (device : DeviceInfo) (token : String) (net : Network)
    → get_authenticate_response env ≡ none
    → IsReceiving device token env net
    → (find_handle device_id (Server.step (opens device_id user_id session_id) s)
        ≡ ok s.next_handle)
      × (written_on s.next_handle (overtaken device_id user_id session_id now env s)
          ≡ env ∷ authenticated session_id ∷ [])
      × (connect_once has_handler device (ok token) net ≡ record {
        authenticated = false;
        error = some (other "expected an authenticate response as the first message");
        request = some (auth_envelope device token);
        commands = [];
      })
unfolding find_handle Server.step Server.open_stream
overtaken-connect_once device_id user_id session_id now env s has_handler device token net
      no_response r =
    (
      rw (lookup-insert, eq_refl device_id),
      written_overtaken device_id user_id session_id now env s,
      connect_once-not_a_response has_handler device token env net no_response r,
    )
