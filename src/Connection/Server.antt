-- ===== src/Connection/Server.antt =====
-- internal/connection/server.go: the server's streams and the Connect handler as the steps between
-- which other goroutines may run: each critical section, and each write on a stream, is one step.
-- A handler is named by its handle, the pointer to its streamHandle; handles are never used again.
pub mod Invariant
pub mod Interleaving
pub mod Reconnect
use deploy_os.Go.Errors.{Result, ok, err, sentinel, Sentinel}
use deploy_os.Go.Map.{delete, lookup, insert}
use deploy_os.Connection.Manager.{remove, Manager, new_manager, add}
use deploy_os.Base.{
  ℕ, suc, String, true, Option, none, some, List, [], ◌∷◌, ◌++◌, nat_eq, if◌then◌else◌,
}
use deploy_os.Proto.{Envelope, authenticate_response}

-- Where a Connect handler stands.
pub data Phase : Type 0 where
  -- its handle is in the streams
  registered : Phase
  -- its device is in the manager, and the authenticate response is not yet written
  tracked : Phase
  -- the response is written: the receive loop
  serving : Phase
  -- the deferred manager.Remove has run
  removed : Phase

pub record Connection : Type 0 where
  pub device_id : String
  pub user_id : String
  pub session_id : String
  pub phase : Phase
  -- what has been written on the stream, in order
  pub written : List Envelope

pub record Server : Type 0 where
  pub manager : Manager
  pub streams : List (String × ℕ)
  -- the handlers that have not returned
  pub connections : ℕ → Option Connection
  pub next_handle : ℕ

abbrev pub update : (ℕ → Option Connection) → ℕ → Option Connection → ℕ → Option Connection
update f h v k = if nat_eq k h then v else f k

-- NewServer, with a new manager
unfoldable pub new_server : Server
new_server = record {
  manager = new_manager;
  streams = [];
  connections = λ h. none;
  next_handle = 0;
}

abbrev pub err_device_not_connected : Sentinel
err_device_not_connected = record {
  name = "connection.ErrDeviceNotConnected";
  text = "device is not connected";
}

-- Connect, behind a successful authenticate: the handle is registered.
unfoldable pub open_stream : String → String → String → Server → Server
open_stream device_id user_id session_id s = record s {
  streams = insert device_id s.next_handle s.streams;
  connections = update s.connections s.next_handle (
      some (record {
        device_id = device_id;
        user_id = user_id;
        session_id = session_id;
        phase = registered;
        written = [];
      }));
  next_handle = suc s.next_handle;
}

-- s.manager.Add
unfoldable pub track_connection : ℕ → ℕ → Connection → Server → Server
track_connection now h c s = record s {
  manager =
      add
        (record {
          device_id = c.device_id;
          user_id = c.user_id;
          session_id = c.session_id;
          connected_at = now;
        })
        s.manager;
  connections = update s.connections h (some (record c { phase = tracked }));
}

unfoldable pub authenticated : String → Envelope
authenticated session_id =
    authenticate_response (record { authenticated = true; error = ""; session_id = session_id })

unfoldable pub write_to : ℕ → Envelope → Connection → Server → Server
write_to h envelope c s = record s {
  connections = update s.connections h (some (record c { written = c.written ++ (envelope ∷ []) }));
}

-- handle.send of the authenticate response, when the stream takes it
unfoldable pub respond : ℕ → Connection → Server → Server
unfolding authenticated
respond h c s = record s {
  connections = update s.connections h (
      some
        (record c { phase = serving; written = c.written ++ (authenticated c.session_id ∷ []) }));
}

-- The deferred s.manager.Remove
unfoldable pub untrack : ℕ → Connection → Server → Server
untrack h c s = record s {
  manager = remove c.device_id s.manager;
  connections = update s.connections h (some (record c { phase = removed }));
}

-- The streams without the handler's own entry: `if s.streams[deviceID] == handle { delete(...) }`
unfoldable pub drop_own : ℕ → String → List (String × ℕ) → List (String × ℕ)
drop_own h d streams = elim (lookup d streams) [
  | none ↦ streams
  | some k ↦ if nat_eq k h then delete d streams else streams
]

-- The other deferred function, and the end of the handler
unfoldable pub close_stream : ℕ → Connection → Server → Server
unfolding drop_own
close_stream h c s = record s {
  streams = drop_own h c.device_id s.streams;
  connections = update s.connections h none;
}

abbrev pub or_not_connected : Option ℕ → Result ℕ
or_not_connected none = err (sentinel err_device_not_connected)
or_not_connected (some h) = ok h

-- Server.Send, up to the write: the handle of the device
unfoldable pub find_handle : String → Server → Result ℕ
find_handle d s = or_not_connected (lookup d s.streams)

-- handle.send: a stream whose handler has returned takes nothing
write_handle : ℕ → Envelope → Option Connection → Server → Server
unfolding write_to
write_handle h envelope none s = s
write_handle h envelope (some c) s = write_to h envelope c s

-- What may happen next. An event for a handler that does not stand at that point is none.
pub data Event : Type 0 where
  -- a stream has authenticated as the device of the user
  opens : (device_id user_id session_id : String) → Event
  -- manager.Add, at a time
  tracks : (h now : ℕ) → Event
  responds : (h : ℕ) → Event
  -- the receive loop, or the response before it, ends: the first deferred call
  ends : (h : ℕ) → Event
  -- the second deferred call
  returns : (h : ℕ) → Event
  -- a Send that has found the handle writes on its stream
  writes : (h : ℕ) (envelope : Envelope) → Event

track_at : ℕ → ℕ → Connection → Phase → Server → Server
unfolding track_connection
track_at now h c registered s = track_connection now h c s
track_at now h c _ s = s

respond_at : ℕ → Connection → Phase → Server → Server
unfolding respond
respond_at h c tracked s = respond h c s
respond_at h c _ s = s

end_at : ℕ → Connection → Phase → Server → Server
unfolding untrack
end_at h c tracked s = untrack h c s
end_at h c serving s = untrack h c s
end_at h c _ s = s

return_at : ℕ → Connection → Phase → Server → Server
unfolding close_stream
return_at h c removed s = close_stream h c s
return_at h c _ s = s

-- A step of the handler `h`, if it has not returned.
abbrev with_handler : Option Connection → (Connection → Server → Server) → Server → Server
with_handler none f s = s
with_handler (some c) f s = f c s

unfoldable pub step : Event → Server → Server
unfolding open_stream track_at respond_at end_at return_at write_handle
step (opens d u session) s = open_stream d u session s
step (tracks h now) s = with_handler (s.connections h) (λ c. track_at now h c c.phase) s
step (responds h) s = with_handler (s.connections h) (λ c. respond_at h c c.phase) s
step (ends h) s = with_handler (s.connections h) (λ c. end_at h c c.phase) s
step (returns h) s = with_handler (s.connections h) (λ c. return_at h c c.phase) s
step (writes h envelope) s = write_handle h envelope (s.connections h) s

unfoldable pub run : List Event → Server → Server
run [] s = s
run (e ∷ es) s = run es (step e s)
