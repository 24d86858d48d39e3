-- ===== src/Connection/Client/Session.antt =====
-- internal/connection/client.go: connectOnce behind a positive answer, with the goroutines of the command handlers, and what Run does
-- when it returns. The stream gives the envelopes in order and then an error; a handler's goroutine ends with one call of `send`,
-- which the stream may refuse at any time, and refuses once it has given its error.
pub mod Answers
use deploy_os.Base.{◌≡◌, Bool, true, false, Option, some, List, [], ◌∷◌, ◌++◌}
use deploy_os.Go.Errors.{GoError}
use deploy_os.Proto.{Command, CommandResult, Envelope, command_response, get_command_request}
use deploy_os.Connection.Client.{loop_error}

-- Where the attempt stands.
pub data Place : Type 0 where
  -- the receive loop
  reading : Place
  -- wg.Wait, with the error to return
  waiting : Option GoError → Place
  -- back in Run, with c.connected.Store(false) done
  left : Option GoError → Place

pub record Session : Type 0 where
  -- what the stream still gives
  pub incoming : List Envelope
  -- the commands whose goroutines have not ended
  pub running : List Command
  -- what the stream took from the goroutines, in order
  pub sent : List Envelope
  -- what it refused: the goroutine logs the error
  pub unsent : List Envelope
  pub place : Place
  -- c.connected
  pub connected : Bool

-- Behind c.connected.Store(true)
unfoldable pub connected_session : List Envelope → Session
connected_session incoming = record {
  incoming = incoming;
  running = [];
  sent = [];
  unsent = [];
  place = reading;
  connected = true;
}

-- `go func(cmd)`, unless there is no command or no handler
unfoldable pub spawn : Bool → Option Command → List Command → List Command
spawn true (some c) running = running ++ (c ∷ [])
spawn _ _ running = running

-- The envelope with the result, that the client sends for a command that it handed to its handler.
unfoldable pub answer : (Command → CommandResult) → Command → Envelope
answer handler cmd = command_response (handler cmd)

-- One step of the attempt, with a handler or none, on a stream that ends with an error.
pub data Step (has_handler : Bool) (handler : Command → CommandResult) (last : GoError)
    (s t : Session) : Type 0 where
  receives :
      (env : Envelope) (rest : List Envelope)
      → s.place ≡ reading
      → s.incoming ≡ env ∷ rest
      → t ≡ record s {
        incoming = rest;
        running = spawn has_handler (get_command_request env) s.running;
      }
      → Step has_handler handler last s t
  ends :
      s.place ≡ reading
      → s.incoming ≡ []
      → t ≡ record s { place = waiting (loop_error last) }
      → Step has_handler handler last s t
  -- `send` returns nil
  answers :
      (before later : List Command) (cmd : Command)
      → s.place ≡ reading
      → s.running ≡ before ++ (cmd ∷ later)
      → t ≡ record s { running = before ++ later; sent = s.sent ++ (answer handler cmd ∷ []) }
      → Step has_handler handler last s t
  -- `send` returns an error
  fails :
      (before later : List Command) (cmd : Command)
      → s.running ≡ before ++ (cmd ∷ later)
      → t ≡ record s { running = before ++ later; unsent = s.unsent ++ (answer handler cmd ∷ []) }
      → Step has_handler handler last s t
  returns :
      (r : Option GoError)
      → s.place ≡ waiting r
      → s.running ≡ []
      → t ≡ record s { place = left r; connected = false }
      → Step has_handler handler last s t
