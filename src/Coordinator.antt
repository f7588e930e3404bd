-- ===== src/Coordinator.antt =====
-- services/coordinator/src: the cluster state of main.rs, with its logical view and the heartbeat
-- monitor, and the handlers of api.rs. Each takes the lock on the nodes once, so it is one step. The
-- routes, JSON and log lines are left out, and so is the pairing manager, which these do not touch.
pub mod Monitor
pub mod Lives
pub mod Resources
pub mod Tests
use tensorgrid.Base.{
  ℕ, ◌+◌, ◌-◌, ◌*◌, ◌/◌, ◌^◌, String, Bool, true, false, ◌&&◌, Option, none, some, List, [], ◌∷◌,
  map, retain, ltb, if◌then◌else◌, u64, id_key, Result, ok, err, after,
}
use tensorgrid.HashMap.{HashMap, get, insert, remove, modify, values}
use tensorgrid.Float.{Float}
use tensorgrid.Types.{
  Uuid, NodeId, ClusterId, DateTime, NodeStatus, healthy, suspect, unavailable, NodeCapabilities,
  NodeResources, NodePermissions, PhysicalNode, GpuCapabilities, LogicalCluster,
  ParallelismStrategy, pipeline_hybrid, ModelId, ExecutionPlan, stage_local_with_host_spill,
}

pub record ClusterState (F : Type 0) : Type 0 where
  pub cluster_id : ClusterId
  pub nodes : HashMap NodeId (PhysicalNode F)

-- `Uuid::new_v4()` is an argument.
unfoldable pub new : {F : Type 0} → Uuid → ClusterState F
new cluster_id = record { cluster_id = cluster_id; nodes = [] }

-- The accumulators of `get_logical_cluster`.
pub record Totals (F : Type 0) : Type 0 where
  pub cpu_compute_units : F
  pub host_memory_bytes : ℕ  -- u64
  pub device_memory_bytes : ℕ  -- u64
  pub storage_bytes : ℕ  -- u64

unfoldable pub add_vram : ℕ → List GpuCapabilities → ℕ
add_vram total [] = total
add_vram total (gpu ∷ gpus) = add_vram (u64 (total + gpu.vram_bytes)) gpus

-- `fl` is f32 and `dl` f64.
module _ {F D : Type 0} (fl : Float F) (dl : Float D) where
  abbrev pub add_node : Totals F → PhysicalNode F → Totals F
  add_node t node = record {
    cpu_compute_units = fl.add t.cpu_compute_units (fl.of_ℕ node.capabilities.cpu.cores);
    host_memory_bytes = u64 (t.host_memory_bytes + node.capabilities.memory.available_bytes);
    device_memory_bytes = add_vram t.device_memory_bytes node.capabilities.gpus;
    storage_bytes = u64 (t.storage_bytes + node.capabilities.storage.available_bytes);
  }

  unfoldable pub add_nodes : Totals F → List (PhysicalNode F) → Totals F
  add_nodes t [] = t
  add_nodes t (node ∷ nodes) = add_nodes (add_node t node) nodes

  abbrev pub no_node : Totals F
  no_node = record {
    cpu_compute_units = fl.of_ℕ 0;
    host_memory_bytes = 0;
    device_memory_bytes = 0;
    storage_bytes = 0;
  }

  unfoldable pub get_logical_cluster : ClusterState F → LogicalCluster F
  get_logical_cluster s =
      let t = add_nodes no_node (values s.nodes) in
      record {
        id = s.cluster_id;
        name = "local-cluster";
        logical_resources = record {
          cpu_compute_units = t.cpu_compute_units;
          host_memory_bytes = dl.to_u64 (dl.mul (dl.of_ℕ t.host_memory_bytes) (dl.lit 8 1));
          device_memory_bytes = dl.to_u64 (dl.mul (dl.of_ℕ t.device_memory_bytes) (dl.lit 85 2));
          storage_bytes = t.storage_bytes;
          preferred_parallelism = pipeline_hybrid;
        };
        nodes = s.nodes;
        topology = record { nodes = []; links = [] };
      }

-- `now.signed_duration_since(t).num_seconds()`, where a negative one counts as 0: it is only compared
-- with 10 and 30.
abbrev pub seconds_since : DateTime → DateTime → ℕ
seconds_since now t = (now - t) / 10 ^ 9

abbrev pub is_healthy_status : NodeStatus → Bool
is_healthy_status healthy = true
is_healthy_status _ = false

module _ {F : Type 0} where
  abbrev pub with_status : NodeStatus → PhysicalNode F → PhysicalNode F
  with_status status node = record node { status = status }

  abbrev pub is_silent : DateTime → PhysicalNode F → Bool
  is_silent now node = ltb 30 (seconds_since now node.last_heartbeat)

  -- What a tick of the monitor does to one node.
  unfoldable pub check_node : DateTime → PhysicalNode F → PhysicalNode F
  check_node now node =
      let late = ltb 10 (seconds_since now node.last_heartbeat) && is_healthy_status node.status in
      let checked = if late then with_status suspect node else node in
      if is_silent now checked then with_status unavailable checked else checked

  -- `nodes_to_remove`
  unfoldable pub silent_nodes : DateTime → HashMap NodeId (PhysicalNode F) → List NodeId
  silent_nodes now [] = []
  silent_nodes now ((id, node) ∷ nodes) =
      let rest = silent_nodes now nodes in if is_silent now node then id ∷ rest else rest

  unfoldable pub check_nodes :
      DateTime → HashMap NodeId (PhysicalNode F) → HashMap NodeId (PhysicalNode F)
  check_nodes now [] = []
  check_nodes now ((id, node) ∷ nodes) = (id, check_node now node) ∷ check_nodes now nodes

  unfoldable pub remove_nodes :
      List NodeId → HashMap NodeId (PhysicalNode F) → HashMap NodeId (PhysicalNode F)
  remove_nodes [] nodes = nodes
  remove_nodes (id ∷ ids) nodes = remove_nodes ids (remove id nodes)

  -- One round of `heartbeat_monitor`.
  unfoldable pub heartbeat_monitor : DateTime → ClusterState F → ClusterState F
  heartbeat_monitor now s = record s {
    nodes = remove_nodes (silent_nodes now s.nodes) (check_nodes now s.nodes);
  }

pub record RegisterNodeRequest (F : Type 0) : Type 0 where
  pub node_name : String
  pub hostname : String
  pub cluster_id : String
  pub capabilities : NodeCapabilities
  pub resources : NodeResources F

pub record RegisterNodeResponse : Type 0 where
  pub success : Bool
  pub node_id : Uuid
  pub error_message : Option String

pub record HeartbeatRequest (F : Type 0) : Type 0 where
  pub sequence : ℕ  -- u64
  pub resources : NodeResources F

pub record HeartbeatResponse : Type 0 where
  pub success : Bool
  pub error_message : Option String

abbrev pub default_permissions : NodePermissions
default_permissions = record {
  max_cpu_percent = 80;
  max_cpu_threads = none;
  max_ram_bytes = 16 * 1024 * 1024 * 1024;
  gpu_enabled = true;
  max_vram_bytes = 8 * 1024 * 1024 * 1024;
  max_storage_bytes = 100 * 1024 * 1024 * 1024;
  allow_when_on_battery = false;
  pause_when_user_active = true;
  allowed_schedule = none;
}

abbrev failed : String → HeartbeatResponse
failed why = record { success = false; error_message = some why }

-- `parse` is `Uuid::parse_str` of the uuid crate.
module _ {F : Type 0} (parse : String → Option Uuid) where
  abbrev pub new_node : RegisterNodeRequest F → NodeId → DateTime → ClusterId → PhysicalNode F
  new_node r id now own_cluster = record {
    id = id;
    name = r.node_name;
    hostname = r.hostname;
    cluster_id = elim (parse r.cluster_id) [ none ↦ own_cluster | some c ↦ c ];
    capabilities = r.capabilities;
    resources = r.resources;
    permissions = default_permissions;
    status = healthy;
    last_heartbeat = now;
    certificate_fingerprint = none;
  }

  -- The response's id is printed by the uuid crate.
  unfoldable pub register_node :
      RegisterNodeRequest F
      → NodeId
      → DateTime
      → ClusterState F
      → ClusterState F × RegisterNodeResponse
  register_node r id now s = (
    record s { nodes = insert id (new_node r id now s.cluster_id) s.nodes },
    record { success = true; node_id = id; error_message = none },
  )

  abbrev pub refresh : HeartbeatRequest F → DateTime → PhysicalNode F → PhysicalNode F
  refresh r now node = record node {
    last_heartbeat = now;
    resources = r.resources;
    status = healthy;
  }

  unfoldable pub send_heartbeat :
      String → HeartbeatRequest F → DateTime → ClusterState F → ClusterState F × HeartbeatResponse
  send_heartbeat node_id r now s = elim (parse node_id) [
    | none ↦ (s, failed "Invalid node ID")
    | some id ↦ elim (get id s.nodes) [
      | none ↦ (s, failed "Node not found")
      | some _ ↦ (
        record s { nodes = modify id (refresh r now) s.nodes },
        record { success = true; error_message = none },
      )
    ]
  ]

-- services/coordinator/src/planner.rs: a plan without stages.
unfoldable pub placeholder_plan :
    {F : Type 0} → Float F → ModelId → ParallelismStrategy → ExecutionPlan F
placeholder_plan fl model_id strategy = record {
  model_id = model_id;
  strategy = strategy;
  estimated = record {
    load_seconds = fl.of_ℕ 30;
    prompt_tokens_per_second = fl.of_ℕ 50;
    decode_tokens_per_second = fl.of_ℕ 10;
  };
  stages = [];
  kv_cache = record { policy = stage_local_with_host_spill; reserved_bytes = 0 };
}

-- What happens to the state: a request, or a round of the monitor.
pub data Event (F : Type 0) : Type 0 where
  registered : RegisterNodeRequest F → NodeId → DateTime → Event F
  heartbeat : String → HeartbeatRequest F → DateTime → Event F
  tick : DateTime → Event F

module _ {F : Type 0} (parse : String → Option Uuid) where
  unfoldable pub step : ClusterState F → Event F → ClusterState F
  step s (registered r id now) = (register_node parse r id now s).0
  step s (heartbeat node_id r now) = (send_heartbeat parse node_id r now s).0
  step s (tick now) = heartbeat_monitor now s

  unfoldable pub run : ClusterState F → List (Event F) → ClusterState F
  run s [] = s
  run s (e ∷ es) = run (step s e) es
