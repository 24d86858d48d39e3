-- ===== src/Proto.antt =====
-- proto/deployos/v1 as the Go code sees it (gen/go/deployos/v1): the messages that travel on the
-- connection, and the getters, which answer the zero value for a missing message.
use deploy_os.Base.{String, Bool, Option, none, some, List}

pub record Metadata : Type 0 where
  pub entries : List (String × String)

pub record Connection : Type 0 where
  pub device_token : String
  pub protocol_version : String

pub record Device : Type 0 where
  pub id : String
  pub hostname : String
  pub operating_system : String
  pub architecture : String
  pub deployos_version : String

pub record AuthenticateRequest : Type 0 where
  pub connection : Option Connection
  pub device : Option Device

pub record AuthenticateResponse : Type 0 where
  pub authenticated : Bool
  pub error : String
  pub session_id : String

pub record Command : Type 0 where
  pub id : String
  pub kind : String
  pub arguments : Option Metadata

pub record CommandResult : Type 0 where
  pub command_id : String
  pub success : Bool
  pub message : String
  pub details : Option Metadata

-- The oneof of ConnectionEnvelope; `empty` is an envelope with no payload, or of a kind that this
-- build does not know.
pub data Envelope : Type 0 where
  authenticate_request : AuthenticateRequest → Envelope
  authenticate_response : AuthenticateResponse → Envelope
  command_request : Command → Envelope
  command_response : CommandResult → Envelope
  empty : Envelope

unfoldable pub get_authenticate_request : Envelope → Option AuthenticateRequest
get_authenticate_request (authenticate_request r) = some r
get_authenticate_request _ = none

unfoldable pub get_authenticate_response : Envelope → Option AuthenticateResponse
get_authenticate_response (authenticate_response r) = some r
get_authenticate_response _ = none

unfoldable pub get_command_request : Envelope → Option Command
get_command_request (command_request c) = some c
get_command_request _ = none

unfoldable pub get_command_response : Envelope → Option CommandResult
get_command_response (command_response r) = some r
get_command_response _ = none

unfoldable pub get_device_token : Option Connection → String
get_device_token none = ""
get_device_token (some c) = c.device_token

unfoldable pub get_id : Option Device → String
get_id none = ""
get_id (some d) = d.id
