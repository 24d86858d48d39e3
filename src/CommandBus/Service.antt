-- ===== src/CommandBus/Service.antt =====
-- internal/commandbus/service.go: the control plane's calls of Service.Send in progress, and the results
-- that arrive. A call is named by its own result channel; a channel is never used again. Each critical section, each
-- channel operation and each call of the Sender is one step. HandleResult's write on the channel is one step with the critical section in front of it: nothing but the call
-- that owns the channel reads it, and a call that gives up in between does not.
pub mod Invariant
pub mod Steps
pub mod Correlation
use deploy_os.Base.{
  ℕ, suc, String, concat, ◌≡◌, not, Option, none, some, List, [], ◌∷◌, nat_eq, if◌then◌else◌,
}
use deploy_os.Go.Errors.{Sentinel, GoError, sentinel, wrap, error_text, is, Result, ok, err}
use deploy_os.Proto.{
  Metadata, AuthenticateRequest, AuthenticateResponse, Command, CommandResult, Envelope,
  authenticate_request, authenticate_response, command_request, command_response, empty,
  get_authenticate_request, get_authenticate_response, get_command_request, get_command_response,
  get_device_token, get_id,
}
use deploy_os.Go.Map.{lookup, insert, delete}
use deploy_os.CommandBus.Wire.{Request, Response, command_of, response_of}

abbrev pub err_device_not_connected : Sentinel
err_device_not_connected = record {
  name = "commandbus.ErrDeviceNotConnected";
  text = "device is not connected";
}

-- Where a call of Send stands.
pub data Phase : Type 0 where
  -- the request is pending, and the Sender has not been called
  registered : Phase
  -- the command is sent: the select
  waiting : Phase
  returned : Result Response → Phase

pub record Call : Type 0 where
  pub id : String
  pub device_id : String
  pub request : Request
  pub phase : Phase

pub record Service : Type 0 where
  -- command id to result channel
  pub pending : List (String × ℕ)
  -- what each channel, of capacity 1, holds
  pub channels : ℕ → List CommandResult
  pub calls : ℕ → Option Call
  pub next_channel : ℕ

-- NewService
unfoldable pub new_service : Service
new_service = record { pending = []; channels = λ k. []; calls = λ k. none; next_channel = 0 }

-- The store `f` with `value` at `slot`.
abbrev pub update {ℓ} : {Value : Type ℓ} (f : ℕ → Value) (slot : ℕ) (value : Value) (k : ℕ) → Value
update f slot value k = if nat_eq k slot then value else f k

-- Send, up to the critical section that registers the pending request under a new id
unfoldable pub begin : String → String → Request → Service → Service
begin id device_id req s = record {
  pending = insert id s.next_channel s.pending;
  channels = update s.channels s.next_channel [];
  calls =
      update s.calls s.next_channel
        (some (record { id = id; device_id = device_id; request = req; phase = registered }));
  next_channel = suc s.next_channel;
}

-- The envelope that the call hands to the Sender
unfoldable pub envelope : Call → Envelope
envelope c = command_request (command_of c.id c.request)

unfoldable pub set_phase : ℕ → Call → Phase → Service → Service
set_phase k c p s = record s { calls = update s.calls k (some (record c { phase = p })) }

-- cleanup, and the return of an error
unfoldable pub give_up : ℕ → Call → GoError → Service → Service
give_up k c e s = record s {
  pending = delete c.id s.pending;
  calls = update s.calls k (some (record c { phase = returned (err e) }));
}

-- fmt.Errorf("%w: %v", ErrDeviceNotConnected, err)
unfoldable pub not_connected : GoError → GoError
unfolding error_text
not_connected e = wrap "" (sentinel err_device_not_connected) (concat (": " ∷ error_text e ∷ []))

-- What follows the Sender's answer
unfoldable pub after_send : ℕ → Option GoError → Call → Phase → Service → Service
unfolding set_phase give_up
after_send k none c registered s = set_phase k c waiting s
after_send k (some e) c registered s = give_up k c (not_connected e) s
after_send k answer c _ s = s

-- `case result := <-resultCh`
unfoldable pub receive_from : ℕ → List CommandResult → Call → Phase → Service → Service
receive_from k (result ∷ rest) c waiting s = record s {
  channels = update s.channels k rest;
  calls = update s.calls k (some (record c { phase = returned (ok (response_of result)) }));
}
receive_from k _ c _ s = s

-- `case <-ctx.Done()`, with ctx.Err()
unfoldable pub cancel_at : ℕ → GoError → Call → Phase → Service → Service
unfolding give_up
cancel_at k e c waiting s = give_up k c e s
cancel_at k e c _ s = s

-- What HandleResult did with an envelope.
pub data Delivery : Type 0 where
  -- no command result
  ignored : Delivery
  -- unknown or already completed: logged and dropped
  dropped : Delivery
  delivered : ℕ → Delivery
  -- the write on a full channel would block
  blocked : ℕ → Delivery

-- pending.resultCh <- result, on a channel of capacity 1
unfoldable pub write_channel : ℕ → CommandResult → List CommandResult → Service → Service × Delivery
write_channel k result [] s =
    (record s { channels = update s.channels k (result ∷ []) }, delivered k)
write_channel k result (r ∷ rs) s = (s, blocked k)

unfoldable pub take_pending : CommandResult → Option ℕ → Service → Service × Delivery
unfolding write_channel
take_pending result none s = (s, dropped)
take_pending result (some k) s =
    write_channel k result (s.channels k)
      (record s { pending = delete result.command_id s.pending })

unfoldable pub handle_payload : Option CommandResult → Service → Service × Delivery
unfolding take_pending
handle_payload none s = (s, ignored)
handle_payload (some result) s = take_pending result (lookup result.command_id s.pending) s

-- HandleResult
unfoldable pub handle_result : String → Envelope → Service → Service × Delivery
unfolding handle_payload get_command_response
handle_result device_id e s = handle_payload (get_command_response e) s

-- What may happen next. An event for a call that does not stand at that point is none.
pub data Event : Type 0 where
  begins : (id device_id : String) (req : Request) → Event
  -- the Sender answered the call's envelope
  sends : (k : ℕ) (answer : Option GoError) → Event
  receives : (k : ℕ) → Event
  cancels : (k : ℕ) (e : GoError) → Event
  -- an envelope from a device
  results : (device_id : String) (e : Envelope) → Event

abbrev pub with_call : Option Call → (Call → Service → Service) → Service → Service
with_call none f s = s
with_call (some c) f s = f c s

unfoldable pub step : Event → Service → Service
unfolding begin after_send receive_from cancel_at handle_result
step (begins id device_id req) s = begin id device_id req s
step (sends k answer) s = with_call (s.calls k) (λ c. after_send k answer c c.phase) s
step (receives k) s = with_call (s.calls k) (λ c. receive_from k (s.channels k) c c.phase) s
step (cancels k e) s = with_call (s.calls k) (λ c. cancel_at k e c c.phase) s
step (results device_id e) s = (handle_result device_id e s).0

abbrev pub HasId : String → Option Call → Type 0
HasId id none = ⊥
HasId id (some c) = c.id ≡ id

-- The ids that uuid.NewString makes are new: no earlier call has one.
abbrev pub IsFresh : Event → Service → Type 0
IsFresh (begins id device_id req) s = (k : ℕ) → ¬ HasId id (s.calls k)
IsFresh _ s = Unit

-- A history from a new service.
pub data Reach : Service → Type 0 where
  here : Reach new_service
  next : {s : Service} → Reach s → (e : Event) → IsFresh e s → Reach (step e s)
