-- ===== src/CommandBus/Wire.antt =====
-- internal/commandbus/commandbus.go: commands and their results, as values and as messages. A Go map that is nil or empty is the empty list.
use deploy_os.Base.{String, ◌≡◌, refl, ap, Bool, Option, none, some, List, [], ◌∷◌}
use deploy_os.Proto.{Metadata, Command, CommandResult}

abbrev pub kind_ping : String
kind_ping = "PING"

abbrev pub kind_get_version : String
kind_get_version = "GET_VERSION"

abbrev pub kind_get_info : String
kind_get_info = "GET_INFO"

abbrev pub kind_list_containers : String
kind_list_containers = "LIST_CONTAINERS"

abbrev pub kind_inspect_container : String
kind_inspect_container = "INSPECT_CONTAINER"

pub record Request : Type 0 where
  pub id : String
  pub kind : String
  pub arguments : List (String × String)

pub record Response : Type 0 where
  pub command_id : String
  pub success : Bool
  pub message : String
  pub details : List (String × String)

unfoldable pub metadata_to_map : Option Metadata → List (String × String)
metadata_to_map none = []
metadata_to_map (some m) = m.entries

unfoldable pub metadata_from_map : List (String × String) → Option Metadata
metadata_from_map [] = none
metadata_from_map (e ∷ m) = some (record { entries = e ∷ m })

-- requestFromProto
unfoldable pub request_from_proto : Command → Request
unfolding metadata_to_map
request_from_proto cmd = record {
  id = cmd.id;
  kind = cmd.kind;
  arguments = metadata_to_map cmd.arguments;
}

-- responseToProto
unfoldable pub response_to_proto : Response → CommandResult
unfolding metadata_from_map
response_to_proto resp = record {
  command_id = resp.command_id;
  success = resp.success;
  message = resp.message;
  details = metadata_from_map resp.details;
}

-- The Command that Service.Send makes of a request under a new id.
unfoldable pub command_of : String → Request → Command
unfolding metadata_from_map
command_of id req = record { id = id; kind = req.kind; arguments = metadata_from_map req.arguments }

-- The Response that Service.Send makes of a result.
unfoldable pub response_of : CommandResult → Response
unfolding metadata_to_map
response_of result = record {
  command_id = result.command_id;
  success = result.success;
  message = result.message;
  details = metadata_to_map result.details;
}

map_round_trip : (m : List (String × String)) → metadata_to_map (metadata_from_map m) ≡ m
unfolding metadata_to_map metadata_from_map
map_round_trip [] = refl
map_round_trip (e ∷ m) = refl

-- The agent reads the request that the control plane put in a command, under the command's id,
-- and the control plane reads the response that the agent put in a result.
pub wire_round_trip :
    (id : String) (req : Request) (resp : Response)
    → (request_from_proto (command_of id req) ≡ record req { id = id })
      × (response_of (response_to_proto resp) ≡ resp)
unfolding request_from_proto command_of response_of response_to_proto
wire_round_trip id req resp = (
  ap (λ m. let r : Request = record { id = id; kind = req.kind; arguments = m } in r)
      (map_round_trip req.arguments),
  ap
      (λ m.
        let r : Response = record {
          command_id = resp.command_id;
          success = resp.success;
          message = resp.message;
          details = m;
        } in
        r)
      (map_round_trip resp.details),
)
