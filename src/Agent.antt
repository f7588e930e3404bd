-- ===== src/Agent.antt =====
-- services/node-agent/src: the agent of main.rs, its client of the coordinator (coordinator_client.rs),
-- and what it says of its machine (resource_manager.rs, runtime_adapter.rs). What the machine and the
-- coordinator answer is an argument. The pairing manager is left out, since the agent makes one and
-- never uses it.
pub mod Machine
pub mod Loop
pub mod Attempts
pub mod GivingUp
pub mod Numbering
pub mod Forgotten
pub mod Tests
use Prim.Native.String.{◌++◌ as joined}
use text.Mathlib.Text.{starts_with}
use tensorgrid.Base.{
  ℕ, ◌*◌, String, Bool, true, false, ◌||◌, Option, none, some, if◌then◌else◌, Result, ok, err,
  ◌>>=◌,
}
use tensorgrid.Types.{Uuid, NodeId, ClusterId, NodeCapabilities, NodePermissions, NodeResources}
use tensorgrid.Coordinator.{RegisterNodeRequest, HeartbeatResponse}
use tensorgrid.Agent.Machine.{RuntimeAdapter, ResourceManager}

-- What a `Box<dyn Error>` of the agent holds: the text of a failed request, probe or registration, or
-- that the answer's identifier is not one.
pub data AgentError : Type 0 where
  request_failed probe_failed registration_failed : String → AgentError
  invalid_node_id : AgentError

-- The HTTP client beside the address is reqwest's.
pub record CoordinatorClient : Type 0 where
  pub base_url : String

unfoldable pub connect : String → CoordinatorClient
connect addr = record {
  base_url =
      if starts_with addr "http://" || starts_with addr "https://"
      then addr
      else joined "http://" addr;
}

pub record RegisterResponse : Type 0 where
  pub success : Bool
  pub node_id : String
  pub error_message : Option String

pub record NodeAgent : Type 0 where
  pub node_id : Option NodeId
  pub cluster_id : ClusterId
  pub coordinator_addr : String
  pub coordinator_client : Option CoordinatorClient
  pub resource_manager : ResourceManager
  pub runtime_adapter : RuntimeAdapter
  pub permissions : NodePermissions

abbrev pub new : ResourceManager → RuntimeAdapter → ClusterId → String → NodeAgent
new resource_manager runtime_adapter cluster_id coordinator_addr = record {
  node_id = none;
  cluster_id = cluster_id;
  coordinator_addr = coordinator_addr;
  coordinator_client = none;
  resource_manager = resource_manager;
  runtime_adapter = runtime_adapter;
  permissions = record {
    max_cpu_percent = 80;
    max_cpu_threads = none;
    max_ram_bytes = 16 * 1024 * 1024 * 1024;
    gpu_enabled = true;
    max_vram_bytes = 8 * 1024 * 1024 * 1024;
    max_storage_bytes = 100 * 1024 * 1024 * 1024;
    allow_when_on_battery = false;
    pause_when_user_active = true;
    allowed_schedule = none;
  };
}

-- What the machine answers while the agent registers, and how the coordinator answers the request or the
-- request fails.
pub record Registration (F : Type 0) : Type 0 where
  pub hostname : String
  pub capabilities : Result AgentError NodeCapabilities
  pub resources : NodeResources F
  pub respond : CoordinatorClient → RegisterNodeRequest F → Result AgentError RegisterResponse

-- `error_message.unwrap_or_else(|| "Unknown error")`
abbrev message_of : RegisterResponse → String
message_of response = elim response.error_message [ none ↦ "Unknown error" | some e ↦ e ]

-- `parse` and `print` are the uuid crate's `Uuid::parse_str` and `to_string`.
module _ (parse : String → Option Uuid) where
  abbrev pub parse_id : String → Result AgentError NodeId
  parse_id text = elim (parse text) [ none ↦ err invalid_node_id | some id ↦ ok id ]

  abbrev pub accept : NodeAgent → CoordinatorClient → RegisterResponse → Result AgentError NodeAgent
  accept a client response =
      if response.success
      then (parse_id response.node_id >>= λ id.
          ok (record a { node_id = some id; coordinator_client = some client }))
      else err (registration_failed (joined "Registration failed: " (message_of response)))

module _ {F : Type 0} (parse : String → Option Uuid) (print : Uuid → String) where
  abbrev pub register_request :
      NodeAgent → Registration F → NodeCapabilities → RegisterNodeRequest F
  register_request a r capabilities = record {
    node_name = r.hostname;
    hostname = r.hostname;
    cluster_id = print a.cluster_id;
    capabilities = capabilities;
    resources = r.resources;
  }

  unfoldable pub register : Registration F → String → NodeAgent → Result AgentError NodeAgent
  register r coordinator_addr a =
      let client = connect coordinator_addr in
      r.capabilities >>= λ capabilities.
      r.respond client (register_request a r capabilities) >>= λ response.
      accept parse a client response
