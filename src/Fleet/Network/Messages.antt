-- ===== src/Fleet/Network/Messages.antt =====
-- The messages of the network: each stands for a call, and each result answers one.
use deploy_os.Base.{
  ℕ, String, ◌≡◌, refl, sym, ap, ◌∙◌, inl, inr, some, [], ◌∷◌, arith, nat_eq, Bool-cases,
}
use deploy_os.Go.Errors.{GoError}
use mathlib.Core.List.{Memᴰ}
use mathlib.Core.List.Memᴰ
use deploy_os.Proto.{CommandResult, Envelope, command_response}
use deploy_os.CommandBus.Wire.{Request, response_to_proto}
use deploy_os.CommandBus.Dispatcher.{Dispatcher, dispatch, wire_handler, dispatch_answers}
use deploy_os.CommandBus.Service
use deploy_os.CommandBus.Service.{
  Phase, Call, Service, new_service, registered, waiting, returned, envelope, not_connected, begin,
  set_phase, give_up, after_send, receive_from, cancel_at, handle_payload, handle_result, IsFresh,
  with_call, HasId,
}
use deploy_os.CommandBus.Service.Steps.{Reach-Inv}
use deploy_os.CommandBus.Service.Correlation.{unknown, matched, handle_result-Handled}
use deploy_os.Fleet.Command.{answers, response_for, answers-envelope}
use deploy_os.Fleet.Network.Moves.{Known, Keeps, IsAnswer, Fine, Moved, same-Keeps, still}

-- The envelope is that of a call to the device.
abbrev pub IsCommand : Service → String → Envelope → Type 0
IsCommand s device_id e =
    (k : ℕ) × (c : Call) × Known s k c × (c.device_id ≡ device_id) × (e ≡ envelope c)

module _ (Allowed : String → Request → Type 0) (Runs : String → Dispatcher → Type 0)
    (IsDone : GoError → Type 0) where
  -- The envelope is the answer of the device to a call.
  abbrev pub IsReply : Service → String → Envelope → Type 0
  IsReply s device_id e =
      (k : ℕ) × (c : Call) × (r : CommandResult) × Known s k c
      × (c.device_id ≡ device_id)
      × (e ≡ command_response r)
      × IsAnswer Allowed Runs IsDone c r

  pub keep_command :
      (s t : Service) (device_id : String) (e : Envelope)
      → Keeps s t
      → IsCommand s device_id e
      → IsCommand t device_id e
  keep_command s t device_id e f (k, c, at, to, is_it) = (k, c, f k c at, to, is_it)

  pub keep_reply :
      (s t : Service) (device_id : String) (e : Envelope)
      → Keeps s t
      → IsReply s device_id e
      → IsReply t device_id e
  keep_reply s t device_id e f (k, c, r, at, from, is_it, answer) =
      (k, c, r, f k c at, from, is_it, answer)

  -- What a device sends for the envelope of a call is the answer to it.
  pub executes-IsReply :
      (s : Service) (device_id : String) (e reply : Envelope) (d : Dispatcher)
      → Runs device_id d
      → Memᴰ reply (answers (wire_handler d) (e ∷ []))
      → IsCommand s device_id e
      → IsReply s device_id reply
  executes-IsReply s device_id e reply d runs m (k, c, at, to, is_it) =
      let own = rw (is_it, answers-envelope d c) at m in
      (
        k,
        c,
        response_to_proto (response_for d c),
        at,
        to,
        Memᴰ.eq_of_singleton own,
        (d, rw to runs, refl),
      )

  -- A result reaches the call that it answers.
  delivered-Fine :
      (s t : Service) (history : Service.Reach s) (k own : ℕ) (c d : Call) (r : CommandResult)
      → Known s k c
      → IsAnswer Allowed Runs IsDone c r
      → s.calls own ≡ some d
      → d.id ≡ r.command_id
      → t.channels own ≡ r ∷ []
      → ((j : ℕ) → ¬ (j ≡ own) → t.channels j ≡ s.channels j)
      → ((j : ℕ) → t.calls j ≡ s.calls j)
      → Fine Allowed Runs IsDone s
      → Fine Allowed Runs IsDone t
  unfolding response_to_proto dispatch
  delivered-Fine s t history k own c d r (p, at) (x, runs, is_it) e id held others calls v =
      let same : k ≡ own = (Reach-Inv history).unique c.id k own (rw at refl) (
        rw e (
          id
          ∙ ap (λ y. y.command_id) is_it
          ∙ (dispatch_answers x (record c.request { id = c.id })).0)) in
      let whole : d ≡ record c { phase = p } = cc (at, e, same) in
      record {
        held = λ j f q qs g h. elim (Bool-cases (nat_eq j own)) [
          | inl here_it ↦
              let z : j ≡ own = ground arith in
              let one : f ≡ record c { phase = p } = cc (g, calls j, z, e, whole) in
              let result : q ≡ r = cc (h, held, z) in rw (one, result) (x, runs, is_it)
          | inr apart ↦
              let z : ¬ (j ≡ own) = λ w. ground arith in
              v.held j f q qs (sym (calls j) ∙ g) (sym (others j z) ∙ h)
        ];
        allowed = λ j f g. v.allowed j f (sym (calls j) ∙ g);
        outcomes = λ j f g. v.outcomes j f (sym (calls j) ∙ g);
      }

  pub handles-Moved :
      (s : Service) (history : Service.Reach s) (from device_id : String) (e : Envelope)
      → IsReply s device_id e
      → Moved Allowed Runs IsDone s (handle_result from e s).0
  handles-Moved s history from device_id e (k, c, r, at, to, is_it, answer) =
      rw is_it (elim (handle_result-Handled history from r) [
        | unknown absent q ↦ rw q (still Allowed Runs IsDone s)
        | matched own d g id o q held gone others calls ↦ record {
          keeps = same-Keeps s (handle_result from (command_response r) s).0 calls;
          fine =
              delivered-Fine s (handle_result from (command_response r) s).0 history k own c d r at
                answer g id held others calls;
        }
      ])
