-- ===== src/Examples/Session.antt =====
-- The sessions of the client at a concrete stream: two commands, of which the second is answered and the stream ends before the first is.
use deploy_os.Base.{
  ◌+◌, ◌*◌, ◌≤◌, ◌++◌, String, ◌≡◌, refl, ◌⊎◌, true, false, Option, none, List, [], ◌∷◌, map,
  length,
}
use deploy_os.Go.Errors.{GoError, sentinel}
use mathlib.Core.List.{Perm}
use deploy_os.Proto.{Command, CommandResult, Envelope, command_request, command_response}
use deploy_os.Runtime.{Steps, stop, go}
use deploy_os.Connection.Client.{received, loop_error, err_eof}
use deploy_os.Connection.Client.Session.{
  Place, waiting, left, Session, connected_session, answer, Step, receives, ends, answers, fails,
  returns,
}
use deploy_os.Connection.Client.Session.Answers.{session_ends, session-connected}

abbrev command : String → Command
command id = record { id = id; kind = "PING"; arguments = none }

abbrev handler : Command → CommandResult
handler cmd = record { command_id = cmd.id; success = true; message = "pong"; details = none }

abbrev eof : GoError
eof = sentinel err_eof

abbrev stream : List Envelope
stream = command_request (command "c-1") ∷ command_request (command "c-2") ∷ []

abbrev both_running : Session
both_running = record (connected_session []) { running = command "c-1" ∷ command "c-2" ∷ [] }

abbrev one_answered : Session
one_answered = record both_running {
  running = command "c-1" ∷ [];
  sent = answer handler (command "c-2") ∷ [];
}

abbrev at_end : Session
at_end = record one_answered { place = waiting (loop_error eof) }

abbrev one_refused : Session
one_refused = record at_end { running = []; unsent = answer handler (command "c-1") ∷ [] }

abbrev over : Session
over = record one_refused { place = left (loop_error eof); connected = false }

abbrev one_running : Session
one_running = record (connected_session (command_request (command "c-2") ∷ [])) {
  running = command "c-1" ∷ [];
}

to_end : Steps (Step true handler eof) 4 (connected_session stream) at_end
unfolding connected_session deploy_os.Connection.Client.Session.spawn
    deploy_os.Proto.get_command_request
to_end =
    go {s = connected_session stream} {t = one_running}
      (receives (command_request (command "c-1")) (command_request (command "c-2") ∷ []) refl refl
        refl)
      (go {s = one_running} {t = both_running}
        (receives (command_request (command "c-2")) [] refl refl refl)
        (go {s = both_running} {t = one_answered}
          (answers (command "c-1" ∷ []) [] (command "c-2") refl refl refl)
          (go {s = one_answered} (ends refl refl refl) (stop at_end))))

to_over : Steps (Step true handler eof) 6 (connected_session stream) over
unfolding connected_session deploy_os.Connection.Client.Session.spawn
    deploy_os.Proto.get_command_request
to_over =
    go
      (receives (command_request (command "c-1")) (command_request (command "c-2") ∷ []) refl refl
        refl)
      (go (receives (command_request (command "c-2")) [] refl refl refl) (
        go (answers (command "c-1" ∷ []) [] (command "c-2") refl refl refl) (
          go (ends refl refl refl) (
            go (fails [] [] (command "c-1") refl refl)
              (go (returns (loop_error eof) refl refl refl) (stop over))))))

session_ends_example :
    (6 ≤ 2 * length stream + 2)
    × (((over.place ≡ left (loop_error eof))
          × (over.connected ≡ false)
          × Perm (over.unsent ++ over.sent) (map (answer handler) (received true stream)))
        ⊎ ((u : Session) × Step true handler eof over u))
session_ends_example = session_ends true handler eof stream 6 over to_over

session-connected_example :
    (at_end.connected ≡ false
      → Perm (at_end.unsent ++ at_end.sent) (map (answer handler) (received true stream)))
    × ((r : Option GoError)
        → at_end.place ≡ waiting r
        → (at_end.incoming ≡ []) × (at_end.connected ≡ true))
session-connected_example = session-connected true handler eof stream 4 at_end to_end
