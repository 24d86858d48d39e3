-- ===== src/CommandBus/Service/Correlation.antt =====
-- What a caller of Send gets, and what HandleResult does.
use deploy_os.Base.{
  ℕ, String, ◌≡◌, refl, ◌∙◌, inl, inr, true, false, none, some, List, [], ◌∷◌, arith, eq_refl, ◌==◌,
  Option-cases,
}
use deploy_os.Go.Errors.{Sentinel, GoError, is, Result, ok, err}
use deploy_os.Proto.{CommandResult, command_response}
use deploy_os.Go.Map.{lookup, lookup-delete}
use deploy_os.CommandBus.Wire.{Response, response_of}
use deploy_os.CommandBus.Service.Invariant.{Inv, is_open}
use deploy_os.CommandBus.Service.Steps.{Reach-Inv}
use deploy_os.CommandBus.Service.{
  err_device_not_connected, registered, waiting, returned, Call, Service, not_connected, after_send,
  receive_from, Delivery, dropped, delivered, write_channel, take_pending, handle_result, sends,
  receives, step, Reach,
}

-- The channel of a call holds a result under the call's id, or nothing.
held_id :
    (k : ℕ) (c : Call) (r : CommandResult) (rs : List CommandResult) (s : Service)
    → Inv s
    → s.calls k ≡ some c
    → s.channels k ≡ r ∷ rs
    → r.command_id ≡ c.id
held_id k c r rs s v e f = ground (arith, v.held k)

-- In every history with new ids, a waiting call whose channel holds a result takes that result
-- and returns it as its response, and the response has the command id that the call itself was
-- given.
pub receives_own :
    {s : Service} (history : Reach s) (k : ℕ) (c : Call) (r : CommandResult)
    (rs : List CommandResult)
    → s.calls k ≡ some c
    → c.phase ≡ waiting
    → s.channels k ≡ r ∷ rs
    → ((step (receives k) s).calls k ≡ some (record c { phase = returned (ok (response_of r)) }))
      × ((response_of r).command_id ≡ c.id)
unfolding step receive_from response_of
receives_own {s} history k c r rs e w f =
    (rw (e, f, w) (ground arith), held_id k c r rs s (Reach-Inv history) e f)

-- What HandleResult does with a result.
pub data Handled (result : CommandResult) (s : Service) (r : Service × Delivery) : Type 0 where
  unknown : lookup result.command_id s.pending ≡ none → r ≡ (s, dropped) → Handled result s r
  matched :
      (k : ℕ) (c : Call)
      → s.calls k ≡ some c
      → c.id ≡ result.command_id
      → is_open c.phase ≡ true
      → r.1 ≡ delivered k
      → r.0.channels k ≡ result ∷ []
      → lookup result.command_id r.0.pending ≡ none
      → ((j : ℕ) → ¬ (j ≡ k) → r.0.channels j ≡ s.channels j)
      → ((j : ℕ) → r.0.calls j ≡ s.calls j)
      → Handled result s r

-- The call that a pending id leads to.
pending_call :
    (id : String) (k : ℕ) (s : Service)
    → Inv s
    → lookup id s.pending ≡ some k
    → (c : Call) × (s.calls k ≡ some c)
      × (c.id ≡ id)
      × (is_open c.phase ≡ true)
      × (s.channels k ≡ [])
pending_call id k s v e = elim (Option-cases (s.calls k)) [
  | inl q ↦ ground (arith, v.owned id k)
  | inr (c, q) ↦ (
    c,
    q,
    ground (arith, v.owned id k),
    ground (arith, v.owned id k),
    ground (arith, v.owned id k),
  )
]

matched_call :
    (result : CommandResult) (k : ℕ) (s : Service)
    → Inv s
    → lookup result.command_id s.pending ≡ some k
    → Handled result s (take_pending result (some k) s)
unfolding take_pending write_channel
matched_call result k s v e =
    let (c, q, same, o, vacant) = pending_call result.command_id k s v e in
    rw vacant (
      matched k c q same o refl (ground arith)
        (ground (
          arith,
          lookup-delete result.command_id result.command_id s.pending,
          eq_refl result.command_id,
        ))
        (λ j n. ground arith) (λ j. refl))

-- In every history with new ids, HandleResult of a command result either finds no pending
-- request under its id and changes nothing, or writes it on the empty channel of a call in
-- progress under that id and removes the entry, while no other channel and no call changes. So
-- the write on the channel never blocks.
pub handle_result-Handled :
    {s : Service} (history : Reach s) (device_id : String) (result : CommandResult)
    → Handled result s (handle_result device_id (command_response result) s)
unfolding handle_result
handle_result-Handled {s} history device_id result =
    elim (Option-cases (lookup result.command_id s.pending)) [
      | inl e ↦ unknown e (rw (e, take_pending))
      | inr (k, e) ↦ rw e (matched_call result k s (Reach-Inv history) e)
    ]

-- In every history with new ids, a call of Send that has returned has no pending entry left,
-- whatever it returned.
pub returned_not_pending :
    {s : Service} (history : Reach s) (k : ℕ) (c : Call) (r : Result Response)
    → s.calls k ≡ some c
    → c.phase ≡ returned r
    → lookup c.id s.pending ≡ none
returned_not_pending {s} history k c r e q = elim (Option-cases (lookup c.id s.pending)) [
  | inl gone ↦ gone
  | inr (j, found) ↦
      let v = Reach-Inv history in
      let (d, here_d, same, o, _) = pending_call c.id j s v found in
      ground (arith, v.unique c.id j k)
]

-- When the Sender reports an error, the call returns an error that is ErrDeviceNotConnected and
-- no other declared error, so that errors.Is cannot find the Sender's own; the call's entry is
-- removed, and no other entry and no channel changes.
pub sends_error :
    (k : ℕ) (c : Call) (er : GoError) (s : Service)
    → s.calls k ≡ some c
    → c.phase ≡ registered
    → let t = step (sends k (some er)) s in
      (t.calls k ≡ some (record c { phase = returned (err (not_connected er)) }))
      × ((target : Sentinel)
          → is (not_connected er) target ≡ (err_device_not_connected.name == target.name))
      × (lookup c.id t.pending ≡ none)
      × ((id : String) → (c.id == id) ≡ false → lookup id t.pending ≡ lookup id s.pending)
      × (t.channels ≡ s.channels)
unfolding step is not_connected
sends_error k c er s e q =
    rw (e, q)
      (
        unfold after_send in ground arith,
        λ target. refl,
        lookup-delete c.id c.id s.pending ∙ rw (eq_refl c.id),
        λ id n. lookup-delete c.id id s.pending ∙ rw n,
        refl,
      )
