-- ===== src/Types.antt =====
-- pkg/types/types.go and pkg/protocol/heartbeat.go: agent ids, versions, the roles of machines, and heartbeats.
use deploy_os.Base.{ℕ, String, concat, [], ◌∷◌, ◌==◌, if◌then◌else◌}
use deploy_os.Go.Errors.{Sentinel, sentinel, Result, fail_if}

abbrev pub err_empty_agent_id : Sentinel
err_empty_agent_id = record { name = "types.ErrEmptyAgentID"; text = "agent id must not be empty" }

-- AgentID.Validate
unfoldable pub validate_agent_id : String → Result (Unit {0})
validate_agent_id id = fail_if (id == "") (sentinel err_empty_agent_id)

pub record Version : Type 0 where
  pub number : String
  pub commit : String

-- Version.String
pub version_string : Version → String
version_string v =
    if v.commit == "" then v.number else concat (v.number ∷ " (" ∷ v.commit ∷ ")" ∷ [])

-- NodeRole
pub data NodeRole : Type 0 where
  node_role_agent node_role_control_plane : NodeRole

-- protocol.Heartbeat, with the Unix time in seconds
pub record Heartbeat : Type 0 where
  pub agent_id : String
  pub agent_version : String
  pub timestamp : ℕ

-- NewHeartbeat
unfoldable pub new_heartbeat : ℕ → String → String → Heartbeat
new_heartbeat now agent_id agent_version = record {
  agent_id = agent_id;
  agent_version = agent_version;
  timestamp = now;
}
