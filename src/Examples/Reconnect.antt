-- ===== src/Examples/Reconnect.antt =====
-- Two streams of one device, the older of which ends last.
use deploy_os.Base.{ℕ, String, ◌≡◌, refl, ◌⊎◌, true, false, some, List, [], ◌∷◌, arith}
use deploy_os.Go.Errors.{sentinel, ok, err}
use deploy_os.Proto.{Envelope, authenticate_response}
use deploy_os.Connection.Manager.{State, get, is_connected}
use deploy_os.Connection.Server.{
  serving, Connection, Server, new_server, step, run, find_handle, err_device_not_connected, Event,
  opens, tracks, responds, ends,
}
use deploy_os.Connection.Server.Invariant.{Alive, Serves}
use deploy_os.Connection.Server.Interleaving.{new_server_reports}
use deploy_os.Connection.Server.Reconnect.{older_end_untracks_newer, finish, finish-find_handle}

abbrev twice : List Event
twice =
    opens "laptop" "user-1" "s-1"
    ∷ tracks 0 10
    ∷ responds 0
    ∷ opens "laptop" "user-1" "s-2"
    ∷ tracks 1 20
    ∷ responds 1
    ∷ []

abbrev welcome : String → Envelope
welcome session =
    authenticate_response (record { authenticated = true; error = ""; session_id = session })

abbrev handler : String → Connection
handler session = record {
  device_id = "laptop";
  user_id = "user-1";
  session_id = session;
  phase = serving;
  written = welcome session ∷ [];
}

both : Server
both = run twice new_server

new_server_reports_example :
    ((d : String) (st : State) → get d both.manager ≡ some st → Alive both.connections d st)
    × ((d : String) (h : ℕ) → find_handle d both ≡ ok h → Serves d (both.connections h))
unfolding both
new_server_reports_example = new_server_reports twice

older_end_untracks_newer_example :
    let t = step (ends 0) both in
    (is_connected "laptop" t.manager ≡ false)
    × (find_handle "laptop" t ≡ ok 1)
    × (t.connections 1 ≡ some (handler "s-2"))
unfolding both run step new_server find_handle deploy_os.Go.Map.lookup deploy_os.Go.Map.insert
older_end_untracks_newer_example =
    older_end_untracks_newer both "laptop" 0 1 (handler "s-1") (handler "s-2") refl refl refl refl
      refl refl (omega arith) refl

finish-find_handle_example :
    ((find_handle "laptop" both ≡ ok 0)
      × (find_handle "laptop" (run (finish 0) both) ≡ err (sentinel err_device_not_connected)))
    ⊎ (¬ (find_handle "laptop" both ≡ ok 0)
        × (find_handle "laptop" (run (finish 0) both) ≡ find_handle "laptop" both))
unfolding both run step new_server
finish-find_handle_example = finish-find_handle 0 (handler "s-1") both refl refl
