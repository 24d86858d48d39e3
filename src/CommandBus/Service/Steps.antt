-- ===== src/CommandBus/Service/Steps.antt =====
-- Every step of the service keeps its invariant, and so does every history.
use deploy_os.Base.{ℕ, ◌≡◌, refl, Option, none, some, List, [], ◌∷◌}
use deploy_os.Go.Errors.{GoError}
use deploy_os.Proto.{CommandResult, get_command_response}
use deploy_os.Go.Map.{lookup}
use deploy_os.CommandBus.Service.Invariant.{
  Inv, new_service-Inv, begin-Inv, set_phase-Inv, give_up-Inv, receive-Inv, deliver-Inv,
}
use deploy_os.CommandBus.Service.{
  Phase, registered, waiting, returned, Call, Service, not_connected, after_send, receive_from,
  cancel_at, take_pending, handle_payload, handle_result, Event, begins, sends, receives, cancels,
  results, with_call, step, IsFresh, Reach, here, next,
}

after_send-Inv :
    (k : ℕ) (answer : Option GoError) (c : Call) (p : Phase) (s : Service)
    → s.calls k ≡ some c
    → c.phase ≡ p
    → Inv s
    → Inv (after_send k answer c p s)
unfolding after_send
after_send-Inv k none c registered s e q v = set_phase-Inv k c waiting s e (rw q) refl v
after_send-Inv k (some er) c registered s e q v = give_up-Inv k c (not_connected er) s e v
after_send-Inv k none c _ s e q v = v
after_send-Inv k (some er) c _ s e q v = v

receive_from-Inv :
    (k : ℕ) (held : List CommandResult) (c : Call) (p : Phase) (s : Service)
    → s.calls k ≡ some c
    → s.channels k ≡ held
    → c.phase ≡ p
    → Inv s
    → Inv (receive_from k held c p s)
receive_from-Inv k [] c p s e f q v = unfold receive_from in v
receive_from-Inv k (result ∷ rest) c registered s e f q v = unfold receive_from in v
receive_from-Inv k (result ∷ rest) c waiting s e f q v = receive-Inv k result rest c s e f q v
receive_from-Inv k (result ∷ rest) c (returned r) s e f q v = unfold receive_from in v

cancel_at-Inv :
    (k : ℕ) (er : GoError) (c : Call) (p : Phase) (s : Service)
    → s.calls k ≡ some c
    → Inv s
    → Inv (cancel_at k er c p s)
unfolding cancel_at
cancel_at-Inv k er c waiting s e v = give_up-Inv k c er s e v
cancel_at-Inv k er c registered s e v = v
cancel_at-Inv k er c (returned r) s e v = v

take_pending-Inv :
    (result : CommandResult) (o : Option ℕ) (s : Service)
    → lookup result.command_id s.pending ≡ o
    → Inv s
    → Inv (take_pending result o s).0
take_pending-Inv result none s e v = unfold take_pending in v
take_pending-Inv result (some k) s e v = deliver-Inv k result s e v

handle_payload-Inv : (o : Option CommandResult) (s : Service) → Inv s → Inv (handle_payload o s).0
unfolding handle_payload
handle_payload-Inv none s v = v
handle_payload-Inv (some result) s v =
    take_pending-Inv result (lookup result.command_id s.pending) s refl v

call-Inv :
    (f : Call → Service → Service) (k : ℕ) (s : Service)
    → ((c : Call) → s.calls k ≡ some c → Inv (f c s))
    → Inv s
    → (o : Option Call) → s.calls k ≡ o
    → Inv (with_call o f s)
call-Inv f k s keeps v none e = v
call-Inv f k s keeps v (some c) e = keeps c e

step-Inv : (e : Event) (s : Service) → IsFresh e s → Inv s → Inv (step e s)
unfolding step handle_result
step-Inv (begins id device_id req) s fresh v = begin-Inv id device_id req s fresh v
step-Inv (sends k answer) s fresh v =
    call-Inv _ k s (λ c e. after_send-Inv k answer c c.phase s e refl v) v (s.calls k) refl
step-Inv (receives k) s fresh v =
    call-Inv _ k s (λ c e. receive_from-Inv k (s.channels k) c c.phase s e refl refl v) v
      (s.calls k) refl
step-Inv (cancels k er) s fresh v =
    call-Inv _ k s (λ c e. cancel_at-Inv k er c c.phase s e v) v (s.calls k) refl
step-Inv (results device_id e) s fresh v = handle_payload-Inv (get_command_response e) s v

pub Reach-Inv : {s : Service} → Reach s → Inv s
Reach-Inv here = new_service-Inv
Reach-Inv (next {s = s} r e fresh) = step-Inv e s fresh (Reach-Inv r)
