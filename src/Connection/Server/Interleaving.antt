-- ===== src/Connection/Server/Interleaving.antt =====
-- Any interleaving of the steps of the server's handlers keeps what holds of it.
use deploy_os.Base.{ℕ, String, ◌≡◌, refl, true, Option, none, some, List, [], ◌∷◌, arith}
use deploy_os.Go.Errors.{ok}
use deploy_os.Connection.Server.{
  registered, tracked, serving, removed, opens, tracks, responds, ends, returns, writes, track_at,
  respond_at, end_at, return_at, write_handle, write_to, respond, step, run, Event, find_handle,
  with_handler, Phase, Connection, Server, new_server,
}
use deploy_os.Proto.{Envelope}
use deploy_os.Connection.Manager.{State, get}
use deploy_os.Connection.Server.Invariant.{
  open_stream-Inv, replace-Inv, track-Inv, untrack-Inv, close-Inv, Serves, is_live, Alive, Inv,
  new_server-Inv,
}

-- The steps of one handler, by the phase that it is in.
track_at-Inv :
    (now h : ℕ) (c : Connection) (p : Phase) (s : Server)
    → s.connections h ≡ some c
    → c.phase ≡ p
    → Inv s
    → Inv (track_at now h c p s)
unfolding track_at
track_at-Inv now h c registered s e q v = track-Inv now h c s e v
track_at-Inv now h c _ s e q v = v

respond-Inv :
    (h : ℕ) (c : Connection) (s : Server)
    → s.connections h ≡ some c
    → is_live c.phase ≡ true
    → Inv s
    → Inv (respond h c s)
unfolding respond
respond-Inv h c s e live v = replace-Inv s h c _ e refl (λ _. (_, refl, refl, refl, refl, refl)) v

respond_at-Inv :
    (h : ℕ) (c : Connection) (p : Phase) (s : Server)
    → s.connections h ≡ some c
    → c.phase ≡ p
    → Inv s
    → Inv (respond_at h c p s)
unfolding respond_at
respond_at-Inv h c tracked s e q v = respond-Inv h c s e (rw q) v
respond_at-Inv h c _ s e q v = v

end_at-Inv :
    (h : ℕ) (c : Connection) (p : Phase) (s : Server)
    → s.connections h ≡ some c
    → Inv s
    → Inv (end_at h c p s)
unfolding end_at
end_at-Inv h c tracked s e v = untrack-Inv h c s e v
end_at-Inv h c serving s e v = untrack-Inv h c s e v
end_at-Inv h c _ s e v = v

return_at-Inv :
    (h : ℕ) (c : Connection) (p : Phase) (s : Server)
    → s.connections h ≡ some c
    → c.phase ≡ p
    → Inv s
    → Inv (return_at h c p s)
unfolding return_at
return_at-Inv h c removed s e q v = close-Inv h c s e (rw q) v
return_at-Inv h c _ s e q v = v

write-Inv :
    (h : ℕ) (envelope : Envelope) (o : Option Connection) (s : Server)
    → s.connections h ≡ o
    → Inv s
    → Inv (write_handle h envelope o s)
unfolding write_handle write_to
write-Inv h envelope none s e v = v
write-Inv h envelope (some c) s e v =
    replace-Inv s h c _ e refl (λ live. (_, refl, live, refl, refl, refl)) v

-- A step of a handler keeps what each step of a running one keeps.
handler-Inv :
    (f : Connection → Server → Server) (h : ℕ) (s : Server)
    → ((c : Connection) → s.connections h ≡ some c → Inv (f c s))
    → Inv s
    → (o : Option Connection) → s.connections h ≡ o
    → Inv (with_handler o f s)
handler-Inv f h s keeps v none e = v
handler-Inv f h s keeps v (some c) e = keeps c e

pub step-Inv : (e : Event) (s : Server) → Inv s → Inv (step e s)
unfolding step
step-Inv (opens d u session) s v = open_stream-Inv d u session s v
step-Inv (tracks h now) s v =
    handler-Inv _ h s (λ c e. track_at-Inv now h c c.phase s e refl v) v (s.connections h) refl
step-Inv (responds h) s v =
    handler-Inv _ h s (λ c e. respond_at-Inv h c c.phase s e refl v) v (s.connections h) refl
step-Inv (ends h) s v =
    handler-Inv _ h s (λ c e. end_at-Inv h c c.phase s e v) v (s.connections h) refl
step-Inv (returns h) s v =
    handler-Inv _ h s (λ c e. return_at-Inv h c c.phase s e refl v) v (s.connections h) refl
step-Inv (writes h envelope) s v = write-Inv h envelope (s.connections h) s refl v

pub run-Inv : (es : List Event) (s : Server) → Inv s → Inv (run es s)
unfolding run
run-Inv [] s v = v
run-Inv (e ∷ es) s v = run-Inv es (step e s) (step-Inv e s v)

-- After any interleaving of the handlers' steps on a new server, every device that the
-- Connection Manager has an entry for has a handler between its manager.Add and its
-- manager.Remove, which serves that device with the recorded user and session; and every handle
-- that a Send can find for a device belongs to a handler of that device that has not returned.
pub new_server_reports :
    (es : List Event)
    → let s = run es new_server in
      ((d : String) (st : State) → get d s.manager ≡ some st → Alive s.connections d st)
      × ((d : String) (h : ℕ) → find_handle d s ≡ ok h → Serves d (s.connections h))
unfolding find_handle
new_server_reports es =
    let v = run-Inv es new_server new_server-Inv in (v.alive, λ d h p. v.owned d h (ground arith))
