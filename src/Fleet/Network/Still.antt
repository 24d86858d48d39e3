-- ===== src/Fleet/Network/Still.antt =====
-- Which calls a step of the service brings to a phase.
use deploy_os.Base.{
  ℕ, ◌≡◌, refl, sym, ap, ◌∙◌, inl, inr, Option, none, some, List, [], ◌∷◌, arith, nat_eq,
  Bool-cases, some_inj,
}
use deploy_os.Go.Errors.{GoError, Result, err}
use deploy_os.Go.Map.{lookup}
use deploy_os.Proto.{CommandResult}
use deploy_os.CommandBus.Service
use deploy_os.CommandBus.Service.{
  Phase, Call, Service, new_service, registered, waiting, returned, envelope, not_connected, begin,
  set_phase, give_up, after_send, receive_from, cancel_at, write_channel, take_pending,
  handle_payload, handle_result, IsFresh, with_call, HasId,
}
use deploy_os.CommandBus.Wire.{Response}

module _ (q : Phase) (ended : (r : Result Response) → ¬ (returned r ≡ q)) where
  -- A call that is at the phase was so before.
  abbrev pub Still : Service → Service → Type 0
  Still s t = (k : ℕ) (c : Call) → t.calls k ≡ some c → c.phase ≡ q → s.calls k ≡ some c

  place-Still :
      (s t : Service) (j : ℕ) (c : Call) (p : Phase)
      → t.calls ≡ Service.update s.calls j (some (record c { phase = p }))
      → ¬ (p ≡ q)
      → Still s t
  place-Still s t j c p q n k d e r = elim (Bool-cases (nat_eq k j)) [
    | inl same ↦
        let f : some d ≡ some (record c { phase = p }) = sym e ∙ rw q (ground arith) in
        absurd (n (ap (λ (x : Call). x.phase) (sym (some_inj f)) ∙ r))
    | inr apart ↦ let f : t.calls k ≡ s.calls k = rw q (ground arith) in sym f ∙ e
  ]

  pub same-Still : (s t : Service) → ((k : ℕ) → t.calls k ≡ s.calls k) → Still s t
  same-Still s t q k c e r = sym (q k) ∙ e

  pub after_send-Still :
      (unsent : ¬ (waiting ≡ q)) (k : ℕ) (answer : Option GoError) (c : Call) (p : Phase)
      (s : Service)
      → Still s (after_send k answer c p s)
  unfolding after_send set_phase give_up
  after_send-Still unsent k none c registered s =
      place-Still s (set_phase k c waiting s) k c waiting refl unsent
  after_send-Still unsent k (some er) c registered s =
      place-Still s (give_up k c (not_connected er) s) k c (returned (err (not_connected er))) refl
        (ended _)
  after_send-Still unsent k none c _ s = same-Still s s (λ k. refl)
  after_send-Still unsent k (some er) c _ s = same-Still s s (λ k. refl)

  pub cancel_at-Still :
      (k : ℕ) (er : GoError) (c : Call) (p : Phase) (s : Service) → Still s (cancel_at k er c p s)
  unfolding cancel_at give_up
  cancel_at-Still k er c waiting s =
      place-Still s (give_up k c er s) k c (returned (err er)) refl (ended _)
  cancel_at-Still k er c registered s = same-Still s s (λ k. refl)
  cancel_at-Still k er c (returned r) s = same-Still s s (λ k. refl)

  pub receive_from-Still :
      (k : ℕ) (held : List CommandResult) (c : Call) (p : Phase) (s : Service)
      → Still s (receive_from k held c p s)
  unfolding receive_from
  receive_from-Still k [] c p s = same-Still s s (λ k. refl)
  receive_from-Still k (result ∷ rest) c registered s = same-Still s s (λ k. refl)
  receive_from-Still k (result ∷ rest) c (returned r) s = same-Still s s (λ k. refl)
  receive_from-Still k (result ∷ rest) c waiting s =
      place-Still s (receive_from k (result ∷ rest) c waiting s) k c _ refl (ended _)

  pub at_call-Still :
      (s : Service) (f : Call → Service → Service) (o : Option Call)
      → ((c : Call) → Still s (f c s))
      → Still s (with_call o f s)
  at_call-Still s f none h = same-Still s s (λ k. refl)
  at_call-Still s f (some c) h = h c

write_channel-calls :
    (k : ℕ) (result : CommandResult) (held : List CommandResult) (s : Service)
    → (write_channel k result held s).0.calls ≡ s.calls
unfolding write_channel
write_channel-calls k result [] s = refl
write_channel-calls k result (r ∷ rs) s = refl

take_pending-calls :
    (result : CommandResult) (o : Option ℕ) (s : Service)
    → (take_pending result o s).0.calls ≡ s.calls
unfolding take_pending
take_pending-calls result none s = refl
take_pending-calls result (some k) s = write_channel-calls k result (s.channels k) _

pub handle_payload-calls :
    (o : Option CommandResult) (s : Service) → (handle_payload o s).0.calls ≡ s.calls
unfolding handle_payload
handle_payload-calls none s = refl
handle_payload-calls (some result) s =
    take_pending-calls result (lookup result.command_id s.pending) s
