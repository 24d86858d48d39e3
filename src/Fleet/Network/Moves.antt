-- ===== src/Fleet/Network/Moves.antt =====
-- How one step of the service moves its calls: each stays, and has an outcome of its own device.
use deploy_os.Base.{
  ℕ, String, ◌≡◌, refl, sym, ap, ◌∙◌, ◌⊎◌, inl, inr, false, Option, none, some, List, [], ◌∷◌,
  arith, nat_eq, Bool-cases,
}
use deploy_os.Go.Errors.{GoError, ok, err}
use deploy_os.Proto.{CommandResult}
use deploy_os.CommandBus.Wire.{Request, response_of, response_to_proto, wire_round_trip}
use deploy_os.CommandBus.Dispatcher.{Dispatcher}
use deploy_os.CommandBus.Service
use deploy_os.CommandBus.Service.{
  Phase, Call, Service, new_service, registered, waiting, returned, envelope, not_connected, begin,
  set_phase, give_up, after_send, receive_from, cancel_at, handle_payload, handle_result, IsFresh,
  with_call,
}
use deploy_os.CommandBus.Service.Invariant.{Inv}
use deploy_os.Fleet.Command.{response_for}

-- The call, wherever it stands.
abbrev pub Known : Service → ℕ → Call → Type 0
Known s k c = (p : Phase) × (s.calls k ≡ some (record c { phase = p }))

-- Every call stays, with its id, its device and its request.
abbrev pub Keeps : Service → Service → Type 0
Keeps s t = (k : ℕ) (c : Call) → Known s k c → Known t k c

pub begin-Keeps :
    (id device_id : String) (req : Request) (s : Service)
    → Inv s
    → Keeps s (begin id device_id req s)
unfolding begin
begin-Keeps id device_id req s v k c (p, e) = (p, ground (arith, v.new_channels k))

place-Keeps :
    (s t : Service) (j : ℕ) (c : Call) (p : Phase)
    → s.calls j ≡ some c
    → t.calls ≡ Service.update s.calls j (some (record c { phase = p }))
    → Keeps s t
place-Keeps s t j c p e q k d (o, f) = elim (Bool-cases (nat_eq k j)) [
  | inl same ↦ (p, let x : k ≡ j = ground arith in rw q (ground arith))
  | inr apart ↦ (o, rw q (ground arith))
]

pub same-Keeps : (s t : Service) → ((k : ℕ) → t.calls k ≡ s.calls k) → Keeps s t
same-Keeps s t q k c (p, e) = (p, q k ∙ e)

module _ (Allowed : String → Request → Type 0) (Runs : String → Dispatcher → Type 0)
    (IsDone : GoError → Type 0) where
  -- A dispatcher of the call's device gave the result for the call's request under the call's id.
  abbrev pub IsAnswer : Call → CommandResult → Type 0
  IsAnswer c r = (d : Dispatcher) × Runs c.device_id d × (r ≡ response_to_proto (response_for d c))

  -- A call returns a response of its own device to its own request, or that the device is not connected, or the end of
  -- its context.
  abbrev pub IsOutcome : Call → Phase → Type 0
  IsOutcome c (returned (ok r)) = (d : Dispatcher) × Runs c.device_id d × (r ≡ response_for d c)
  IsOutcome c (returned (err e)) = ((cause : GoError) × (e ≡ not_connected cause)) ⊎ IsDone e
  IsOutcome c _ = Unit

  pub record Fine (s : Service) : Type 0 where
    pub held :
        (k : ℕ) (c : Call) (r : CommandResult) (rs : List CommandResult)
        → s.calls k ≡ some c
        → s.channels k ≡ r ∷ rs
        → IsAnswer c r
    pub allowed : (k : ℕ) (c : Call) → s.calls k ≡ some c → Allowed c.device_id c.request
    pub outcomes : (k : ℕ) (c : Call) → s.calls k ≡ some c → IsOutcome c c.phase

  -- The channel is empty, or what it was for the same call.
  abbrev IsOld : Service → Service → ℕ → Call → Type 0
  IsOld s t k c = (t.channels k ≡ []) ⊎ ((t.channels k ≡ s.channels k) × Known s k c)

  old-IsAnswer :
      (s t : Service) (k : ℕ) (c : Call) (r : CommandResult) (rs : List CommandResult)
      → Fine s
      → t.channels k ≡ r ∷ rs
      → IsOld s t k c
      → IsAnswer c r
  old-IsAnswer s t k c r rs v h (inl none_held) = let bad = sym none_held ∙ h in cc
  old-IsAnswer s t k c r rs v h (inr (same, (p, e))) =
      v.held k (record c { phase = p }) r rs e (sym same ∙ h)

  -- One call comes in or moves on.
  placed-Fine :
      (s t : Service) (j : ℕ) (c : Call)
      → t.calls ≡ Service.update s.calls j (some c)
      → Allowed c.device_id c.request
      → IsOutcome c c.phase
      → IsOld s t j c
      → ((k : ℕ) → nat_eq k j ≡ false → t.channels k ≡ s.channels k)
      → Fine s
      → Fine t
  placed-Fine s t j c q a o old others v = record {
    held = λ k d r rs e h. elim (Bool-cases (nat_eq k j)) [
      | inl same ↦
          let x : k ≡ j = ground arith in
          let y : d ≡ c = ground arith in old-IsAnswer s t k d r rs v h (rw (x, y) old)
      | inr apart ↦
          let f : s.calls k ≡ some d = ground arith in v.held k d r rs f (sym (others k apart) ∙ h)
    ];
    allowed = λ k d e. elim (Bool-cases (nat_eq k j)) [
      | inl same ↦ let y : d ≡ c = ground arith in rw y a
      | inr apart ↦ let f : s.calls k ≡ some d = ground arith in v.allowed k d f
    ];
    outcomes = λ k d e. elim (Bool-cases (nat_eq k j)) [
      | inl same ↦ let y : d ≡ c = ground arith in rw y o
      | inr apart ↦ let f : s.calls k ≡ some d = ground arith in v.outcomes k d f
    ];
  }

  pub begin-Fine :
      (id device_id : String) (req : Request) (s : Service)
      → Allowed device_id req
      → Fine s
      → Fine (begin id device_id req s)
  unfolding begin
  begin-Fine id device_id req s a v =
      placed-Fine s (begin id device_id req s) s.next_channel
        (record { id = id; device_id = device_id; request = req; phase = registered }) refl a tt
        (inl (ground arith)) (λ k n. ground arith) v

  -- A call goes on, and no channel changes.
  place-Fine :
      (s t : Service) (j : ℕ) (c : Call) (p : Phase)
      → s.calls j ≡ some c
      → t.calls ≡ Service.update s.calls j (some (record c { phase = p }))
      → t.channels ≡ s.channels
      → IsOutcome c p
      → Fine s
      → Fine t
  place-Fine s t j c p e q same o v =
      placed-Fine s t j (record c { phase = p }) q (v.allowed j c e) o
        (inr (ap (λ f. f j) same, (c.phase, e))) (λ k n. ap (λ f. f k) same) v

  -- What an event does with a call.
  pub record Moved (s t : Service) : Type 0 where
    pub keeps : Keeps s t
    pub fine : Fine s → Fine t

  pub still : (s : Service) → Moved s s
  still s = record { keeps = λ k c h. h; fine = λ v. v }

  place-Moved :
      (s t : Service) (j : ℕ) (c : Call) (p : Phase)
      → s.calls j ≡ some c
      → t.calls ≡ Service.update s.calls j (some (record c { phase = p }))
      → t.channels ≡ s.channels
      → IsOutcome c p
      → Moved s t
  place-Moved s t j c p e q same o = record {
    keeps = place-Keeps s t j c p e q;
    fine = place-Fine s t j c p e q same o;
  }

  pub after_send-Moved :
      (k : ℕ) (answer : Option GoError) (c : Call) (p : Phase) (s : Service)
      → s.calls k ≡ some c
      → Moved s (after_send k answer c p s)
  unfolding after_send set_phase give_up
  after_send-Moved k none c registered s e =
      place-Moved s (set_phase k c waiting s) k c waiting e refl refl tt
  after_send-Moved k (some er) c registered s e =
      place-Moved s (give_up k c (not_connected er) s) k c (returned (err (not_connected er))) e
        refl refl (inl (er, refl))
  after_send-Moved k none c _ s e = still s
  after_send-Moved k (some er) c _ s e = still s

  pub cancel_at-Moved :
      (k : ℕ) (er : GoError) (c : Call) (p : Phase) (s : Service)
      → IsDone er
      → s.calls k ≡ some c
      → Moved s (cancel_at k er c p s)
  unfolding cancel_at give_up
  cancel_at-Moved k er c waiting s d e =
      place-Moved s (give_up k c er s) k c (returned (err er)) e refl refl (inr d)
  cancel_at-Moved k er c registered s d e = still s
  cancel_at-Moved k er c (returned r) s d e = still s

  -- A waiting call returns the response that its channel holds.
  receive-Fine :
      (k : ℕ) (result : CommandResult) (rest : List CommandResult) (c : Call) (s : Service)
      → s.calls k ≡ some c
      → s.channels k ≡ result ∷ rest
      → Inv s
      → Fine s
      → Fine (receive_from k (result ∷ rest) c waiting s)
  unfolding receive_from
  receive-Fine k result rest c s e h inv v =
      let (d, runs, q) = v.held k c result rest e h in
      let response = record c { phase = returned (ok (response_of result)) } in
      placed-Fine s (receive_from k (result ∷ rest) c waiting s) k response refl (v.allowed k c e)
        (d, runs, ap response_of q ∙ (wire_round_trip c.id c.request (response_for d c)).1)
        (inl (ground (arith, inv.held k))) (λ j n. ground arith) v

  pub receive_from-Moved :
      (k : ℕ) (held : List CommandResult) (c : Call) (p : Phase) (s : Service)
      → s.calls k ≡ some c
      → s.channels k ≡ held
      → Inv s
      → Moved s (receive_from k held c p s)
  unfolding receive_from
  receive_from-Moved k [] c p s e h inv = still s
  receive_from-Moved k (result ∷ rest) c registered s e h inv = still s
  receive_from-Moved k (result ∷ rest) c (returned r) s e h inv = still s
  receive_from-Moved k (result ∷ rest) c waiting s e h inv = record {
    keeps =
        place-Keeps s (receive_from k (result ∷ rest) c waiting s) k c
          (returned (ok (response_of result))) e refl;
    fine = receive-Fine k result rest c s e h inv;
  }
