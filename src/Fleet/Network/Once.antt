-- ===== src/Fleet/Network/Once.antt =====
-- No command is handed to a device's stream twice, in every run of the network.
use deploy_os.Base.{
  ℕ, String, ◌≡◌, refl, sym, ap, ◌∙◌, inl, inr, Option, none, some, List, [], ◌∷◌, arith, nat_eq,
  Bool-cases, All,
}
use deploy_os.Go.Errors.{GoError, Result}
use mathlib.Core.List.{Memᴰ}
use deploy_os.Proto.{Envelope, get_command_response}
use deploy_os.CommandBus.Wire.{Request, command_of, Response}
use deploy_os.CommandBus.Dispatcher.{Dispatcher}
use deploy_os.CommandBus.Service
use deploy_os.CommandBus.Service.{
  Phase, Call, Service, new_service, registered, waiting, returned, envelope, not_connected, begin,
  set_phase, give_up, after_send, receive_from, cancel_at, write_channel, take_pending,
  handle_payload, handle_result, IsFresh, with_call, HasId,
}
use deploy_os.CommandBus.Service.Invariant.{Inv}
use deploy_os.CommandBus.Service.Steps.{Reach-Inv}
use deploy_os.Fleet.Network.{
  Network, Step, begins, transmits, executes, handles, receives, cancels, Reach, here, next,
}
use deploy_os.Fleet.Network.Still.{
  Still, same-Still, after_send-Still, receive_from-Still, cancel_at-Still, at_call-Still,
  handle_payload-calls,
}
use deploy_os.Fleet.Network.Messages.{IsCommand}
use deploy_os.Fleet.Network.Sound.{Sound, Reach-Sound}

-- Registered calls were so before.
before : (r : Result Response) → ¬ (returned r ≡ registered)
before r e = cc

-- Behind the Sender's answer the call is not registered.
sends-left :
    (k : ℕ) (answer : Option GoError) (c d : Call) (s : Service)
    → s.calls k ≡ some c
    → c.phase ≡ registered
    → (Service.step (Service.sends k answer) s).calls k ≡ some d
    → ¬ (d.phase ≡ registered)
unfolding Service.step after_send set_phase give_up
sends-left k none c d s e p f q = let g = rw (e, p) at f in ground arith
sends-left k (some er) c d s e p f q = let g = rw (e, p) at f in ground arith

-- Each envelope stands once.
pub Distinct : List (String × Envelope) → Type 0
Distinct [] = Unit
Distinct (m ∷ ms) = All (λ (x : String × Envelope). ¬ (x.1 ≡ m.1)) ms × Distinct ms

-- The command of a call is not among the envelopes.
abbrev pub Unsent : List (String × Envelope) → Call → Type 0
Unsent down c = All (λ (x : String × Envelope). ¬ (x.1 ≡ envelope c)) down

All-Mem :
    (P : String × Envelope → Type 0) (ms : List (String × Envelope))
    → ((m : String × Envelope) → Memᴰ m ms → P m)
    → All P ms
All-Mem P [] f = tt
All-Mem P (m ∷ ms) f = (f m (Memᴰ.head refl), All-Mem P ms (λ x h. f x (Memᴰ.tail h)))

envelope-id : (c d : Call) → envelope c ≡ envelope d → c.id ≡ d.id
unfolding envelope command_of
envelope-id c d q = cc q

record Once (n : Network) : Type 0 where
  pub distinct : Distinct n.down
  pub unsent :
      (k : ℕ) (c : Call) → n.service.calls k ≡ some c → c.phase ≡ registered → Unsent n.down c

Still-Once :
    (n : Network) (t : Service)
    → Still registered before n.service t
    → Once n
    → Once (record n { service = t })
Still-Once n t h v = record {
  distinct = v.distinct;
  unsent = λ k c e p. v.unsent k c (h k c e p) p;
}

-- A new call is none of those whose commands were sent.
begins-Unsent :
    (id : String) (s : Service) (c : Call) (down : List (String × Envelope))
    → ((k : ℕ) → ¬ HasId id (s.calls k))
    → c.id ≡ id
    → ((device_id : String) (e : Envelope) → Memᴰ (device_id, e) down → IsCommand s device_id e)
    → Unsent down c
begins-Unsent id s c down fresh own known =
    All-Mem (λ x. ¬ (x.1 ≡ envelope c)) down
      (λ m h q.
        let (k, d, (p, at), to, is_it) = known m.0 m.1 h in
        fresh k (rw at (envelope-id d c (sym is_it ∙ q) ∙ own)))

begins-Once :
    (id device_id : String) (req : Request) (n : Network)
    → ((k : ℕ) → ¬ HasId id (n.service.calls k))
    → ((device_id : String) (e : Envelope)
        → Memᴰ (device_id, e) n.down
        → IsCommand n.service device_id e)
    → Once n
    → Once (record n { service = begin id device_id req n.service })
unfolding begin
begins-Once id device_id req n fresh known v = record {
  distinct = v.distinct;
  unsent = λ k c e p. elim (Bool-cases (nat_eq k n.service.next_channel)) [
    | inl same ↦
        let own : c.id ≡ id = ground arith in begins-Unsent id n.service c n.down fresh own known
    | inr apart ↦ v.unsent k c (ground arith) p
  ];
}

transmits-Once :
    (k : ℕ) (c : Call) (answer : Option GoError) (n : Network)
    → Inv n.service
    → n.service.calls k ≡ some c
    → c.phase ≡ registered
    → Still registered before n.service (Service.step (Service.sends k answer) n.service)
    → Once n
    → Once (record n {
      service = Service.step (Service.sends k answer) n.service;
      down = (c.device_id, envelope c) ∷ n.down;
    })
unfolding Distinct
transmits-Once k c answer n inv e p still v = record {
  distinct = (v.unsent k c e p, v.distinct);
  unsent = λ j d f q.
      let before = still j d f q in
      (
        λ same.
            let one : k ≡ j =
              inv.unique c.id k j (rw e refl) (rw before (sym (envelope-id c d same))) in
            sends-left k answer c d n.service e p
              (ap (λ i. (Service.step (Service.sends k answer) n.service).calls i) one ∙ f) q,
        v.unsent j d before q,
      );
}

module _ (Allowed : String → Request → Type 0) (Runs : String → Dispatcher → Type 0)
    (IsDone : GoError → Type 0) where
  Step-Once :
      (n t : Network) → Step Allowed Runs IsDone n t → Sound Allowed Runs IsDone n → Once n → Once t
  unfolding Service.step handle_result
  Step-Once n t (begins id device_id req fresh a) sound v =
      begins-Once id device_id req n fresh sound.down v
  Step-Once n t (transmits k c answer e p) sound v =
      transmits-Once k c answer n (Reach-Inv sound.history) e p
        (at_call-Still registered before n.service _ (n.service.calls k)
          (λ d. after_send-Still registered before (λ e. cc) k answer d d.phase n.service))
        v
  Step-Once n t (executes device_id e reply d m runs r) sound v = record {
    distinct = v.distinct;
    unsent = v.unsent;
  }
  Step-Once n t (handles device_id e m) sound v =
      Still-Once n (handle_payload (get_command_response e) n.service).0
        (same-Still registered before n.service
          (handle_payload (get_command_response e) n.service).0
          (λ k. ap (λ f. f k) (handle_payload-calls (get_command_response e) n.service)))
        v
  Step-Once n t (receives k) sound v =
      Still-Once n _
        (at_call-Still registered before n.service _ (n.service.calls k)
          (λ c. receive_from-Still registered before k (n.service.channels k) c c.phase n.service))
        v
  Step-Once n t (cancels k er d) sound v =
      Still-Once n _
        (at_call-Still registered before n.service _ (n.service.calls k)
          (λ c. cancel_at-Still registered before k er c c.phase n.service))
        v

  Reach-Once : {n : Network} → Reach Allowed Runs IsDone n → Once n
  unfolding new_service Distinct
  Reach-Once here = record { distinct = tt; unsent = λ k c e. cc }
  Reach-Once (next {n = n} {t = t} r step) =
      Step-Once n t step (Reach-Sound Allowed Runs IsDone r) (Reach-Once r)

  -- In every run of the network the envelopes that were handed to the streams are all different,
  -- so that no command is handed over twice, and the command of a call that is still in front of
  -- the Sender is not among them.
  pub commands-Distinct :
      {n : Network} (run : Reach Allowed Runs IsDone n)
      → Distinct n.down
        × ((k : ℕ) (c : Call) → n.service.calls k ≡ some c → c.phase ≡ registered → Unsent n.down c)
  commands-Distinct run = let v = Reach-Once run in (v.distinct, v.unsent)
