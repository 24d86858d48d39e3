-- ===== src/Fleet/Network/Sound.antt =====
-- What holds in every run of the network: each message stands for a call, and each result answers one.
use deploy_os.Base.{ℕ, String, ◌≡◌, refl, ap, inl, inr, Option, none, some, ◌∷◌}
use deploy_os.Go.Errors.{GoError}
use mathlib.Core.List.{Memᴰ}
use mathlib.Core.List.Memᴰ
use deploy_os.Proto.{Envelope}
use deploy_os.CommandBus.Wire.{Request}
use deploy_os.CommandBus.Dispatcher.{Dispatcher}
use deploy_os.CommandBus.Service
use deploy_os.CommandBus.Service.{
  Phase, Call, Service, new_service, registered, waiting, returned, envelope, not_connected, begin,
  set_phase, give_up, after_send, receive_from, cancel_at, handle_payload, handle_result, IsFresh,
  with_call, HasId,
}
use deploy_os.CommandBus.Service.Invariant.{Inv}
use deploy_os.CommandBus.Service.Steps.{Reach-Inv}
use deploy_os.Fleet.Network.{
  Network, Step, begins, transmits, executes, handles, receives, cancels, Reach, here, next,
  new_network,
}
use deploy_os.Fleet.Network.Messages.{
  IsCommand, IsReply, keep_command, keep_reply, executes-IsReply, handles-Moved,
}
use deploy_os.Fleet.Network.Moves.{
  Fine, Moved, begin-Keeps, begin-Fine, still, after_send-Moved, cancel_at-Moved,
  receive_from-Moved,
}

module _ (Allowed : String → Request → Type 0) (Runs : String → Dispatcher → Type 0)
    (IsDone : GoError → Type 0) where
  pub record Sound (n : Network) : Type 0 where
    pub history : Service.Reach n.service
    pub fine : Fine Allowed Runs IsDone n.service
    pub down :
        (device_id : String) (e : Envelope)
        → Memᴰ (device_id, e) n.down
        → IsCommand n.service device_id e
    pub up :
        (device_id : String) (e : Envelope)
        → Memᴰ (device_id, e) n.up
        → IsReply Allowed Runs IsDone n.service device_id e

  -- The service moves, and no message comes in.
  Moved-Sound :
      (n : Network) (t : Service)
      → Service.Reach t
      → Moved Allowed Runs IsDone n.service t
      → Sound n
      → Sound (record n { service = t })
  Moved-Sound n t history m v = record {
    history = history;
    fine = m.fine v.fine;
    down = λ device_id e h.
        keep_command Allowed Runs IsDone n.service t device_id e m.keeps (v.down device_id e h);
    up = λ device_id e h.
        keep_reply Allowed Runs IsDone n.service t device_id e m.keeps (v.up device_id e h);
  }

  -- One more message to a device.
  down-Sound :
      (n : Network) (device_id : String) (e : Envelope)
      → IsCommand n.service device_id e
      → Sound n
      → Sound (record n { down = (device_id, e) ∷ n.down })
  down-Sound n device_id e h v = record {
    history = v.history;
    fine = v.fine;
    down = λ to x m. elim (Memᴰ.cases_cons m) [
      | inl q ↦
          let a : to ≡ device_id = ap (λ y. y.0) q in let b : x ≡ e = ap (λ y. y.1) q in rw (a, b) h
      | inr later ↦ v.down to x later
    ];
    up = v.up;
  }

  up-Sound :
      (n : Network) (device_id : String) (e : Envelope)
      → IsReply Allowed Runs IsDone n.service device_id e
      → Sound n
      → Sound (record n { up = (device_id, e) ∷ n.up })
  up-Sound n device_id e h v = record {
    history = v.history;
    fine = v.fine;
    down = v.down;
    up = λ from x m. elim (Memᴰ.cases_cons m) [
      | inl q ↦
          let a : from ≡ device_id = ap (λ y. y.0) q in
          let b : x ≡ e = ap (λ y. y.1) q in rw (a, b) h
      | inr later ↦ v.up from x later
    ];
  }

  at_call-Moved :
      (s : Service) (f : Call → Service → Service) (o : Option Call)
      → ((c : Call) → o ≡ some c → Moved Allowed Runs IsDone s (f c s))
      → Moved Allowed Runs IsDone s (with_call o f s)
  at_call-Moved s f none moves = still Allowed Runs IsDone s
  at_call-Moved s f (some c) moves = moves c refl

  begins-Moved :
      (id device_id : String) (req : Request) (s : Service)
      → Allowed device_id req
      → Inv s
      → Moved Allowed Runs IsDone s (begin id device_id req s)
  begins-Moved id device_id req s a v = record {
    keeps = begin-Keeps id device_id req s v;
    fine = begin-Fine Allowed Runs IsDone id device_id req s a;
  }

  sends-Moved :
      (k : ℕ) (answer : Option GoError) (s : Service)
      → Moved Allowed Runs IsDone s (Service.step (Service.sends k answer) s)
  unfolding Service.step
  sends-Moved k answer s =
      at_call-Moved s _ (s.calls k)
        (λ c e. after_send-Moved Allowed Runs IsDone k answer c c.phase s e)

  Step-Sound : (n t : Network) → Step Allowed Runs IsDone n t → Sound n → Sound t
  unfolding Service.step
  Step-Sound n t (begins id device_id req fresh a) v =
      Moved-Sound n _ (Service.next v.history (Service.begins id device_id req) fresh)
        (begins-Moved id device_id req n.service a (Reach-Inv v.history)) v
  Step-Sound n t (transmits k c answer e p) v =
      let s = Service.step (Service.sends k answer) n.service in
      let moved =
        Moved-Sound n s (Service.next v.history (Service.sends k answer) tt)
          (sends-Moved k answer n.service) v in
      let (p, at) = (sends-Moved k answer n.service).keeps k c (c.phase, e) in
      down-Sound (record n { service = s }) c.device_id (envelope c) (k, c, (p, at), refl, refl)
        moved
  Step-Sound n t (executes device_id e reply d m runs r) v =
      up-Sound n device_id reply
        (executes-IsReply Allowed Runs IsDone n.service device_id e reply d runs r
          (v.down device_id e m))
        v
  Step-Sound n t (handles device_id e m) v =
      Moved-Sound n _ (Service.next v.history (Service.results device_id e) tt)
        (handles-Moved Allowed Runs IsDone n.service v.history device_id device_id e
          (v.up device_id e m))
        v
  Step-Sound n t (receives k) v =
      Moved-Sound n _ (Service.next v.history (Service.receives k) tt)
        (at_call-Moved n.service _ (n.service.calls k) (λ c e.
          receive_from-Moved Allowed Runs IsDone k (n.service.channels k) c c.phase n.service e refl
            (Reach-Inv v.history)))
        v
  Step-Sound n t (cancels k er d) v =
      Moved-Sound n _ (Service.next v.history (Service.cancels k er) tt)
        (at_call-Moved n.service _ (n.service.calls k)
          (λ c e. cancel_at-Moved Allowed Runs IsDone k er c c.phase n.service d e))
        v

  new_network-Sound : Sound new_network
  unfolding new_service
  new_network-Sound = record {
    history = Service.here;
    fine = record { held = λ k c r rs e. cc; allowed = λ k c e. cc; outcomes = λ k c e. cc };
    down = λ device_id e m. absurd (Memᴰ.not-nil m);
    up = λ device_id e m. absurd (Memᴰ.not-nil m);
  }

  pub Reach-Sound : {n : Network} → Reach Allowed Runs IsDone n → Sound n
  Reach-Sound here = new_network-Sound
  Reach-Sound (next {n = n} {t = t} r step) = Step-Sound n t step (Reach-Sound r)
