-- ===== src/Types/Node.antt =====
-- crates/cluster-types: a node, its use and permissions, and the cluster. `F` is the type of floats.
use tensorgrid.Base.{ℕ, String, Option, List, Bool}
use tensorgrid.HashMap.{HashMap}
use tensorgrid.Types.Hardware.{NodeCapabilities}

-- A `Uuid` is its 128-bit number; the program compares and prints it only.
abbrev pub Uuid : Type 0
Uuid = ℕ

abbrev pub NodeId : Type 0
NodeId = Uuid

abbrev pub ClusterId : Type 0
ClusterId = Uuid

abbrev pub SessionId : Type 0
SessionId = Uuid

-- `DateTime<Utc>`: nanoseconds of the epoch.
abbrev pub DateTime : Type 0
DateTime = ℕ

pub record GpuUsage (F : Type 0) : Type 0 where
  pub device_id : String
  pub utilization_percent : F
  pub vram_used_bytes : ℕ  -- u64
  pub temperature_celsius : F
  pub power_draw_watts : Option F

pub record NodeResources (F : Type 0) : Type 0 where
  pub cpu_usage_percent : F
  pub memory_used_bytes : ℕ  -- u64
  pub memory_committed_bytes : ℕ  -- u64
  pub gpu_usage : List (GpuUsage F)
  pub network_tx_mbps : F
  pub network_rx_mbps : F
  pub temperature_celsius : Option F

pub record Schedule : Type 0 where
  pub allowed_hours : List String

pub record NodePermissions : Type 0 where
  pub max_cpu_percent : ℕ  -- u8
  pub max_cpu_threads : Option ℕ  -- u32
  pub max_ram_bytes : ℕ  -- u64
  pub gpu_enabled : Bool
  pub max_vram_bytes : ℕ  -- u64
  pub max_storage_bytes : ℕ  -- u64
  pub allow_when_on_battery : Bool
  pub pause_when_user_active : Bool
  pub allowed_schedule : Option Schedule

pub data NodeStatus : Type 0 where
  healthy suspect unavailable draining maintenance : NodeStatus

pub record PhysicalNode (F : Type 0) : Type 0 where
  pub id : NodeId
  pub name : String
  pub hostname : String
  pub cluster_id : ClusterId
  pub capabilities : NodeCapabilities
  pub resources : NodeResources F
  pub permissions : NodePermissions
  pub status : NodeStatus
  pub last_heartbeat : DateTime
  pub certificate_fingerprint : Option String

pub data ParallelismStrategy : Type 0 where
  pipeline tensor pipeline_hybrid expert parallel_data : ParallelismStrategy

pub record LogicalResources (F : Type 0) : Type 0 where
  pub cpu_compute_units : F
  pub host_memory_bytes : ℕ  -- u64
  pub device_memory_bytes : ℕ  -- u64
  pub storage_bytes : ℕ  -- u64
  pub preferred_parallelism : ParallelismStrategy

pub record NodeTopology (F : Type 0) : Type 0 where
  pub cpu_score : F
  pub ram_usable_bytes : ℕ  -- u64
  pub devices : List String

pub record LinkMeasurement (F : Type 0) : Type 0 where
  pub from : NodeId
  pub to : NodeId
  pub transport : String
  pub latency_us : ℕ  -- u32
  pub bandwidth_mbps : ℕ  -- u32
  pub jitter_us : ℕ  -- u32
  pub packet_loss_percent : F

pub record ClusterTopology (F : Type 0) : Type 0 where
  pub nodes : HashMap NodeId (NodeTopology F)
  pub links : List (LinkMeasurement F)

pub record LogicalCluster (F : Type 0) : Type 0 where
  pub id : ClusterId
  pub name : String
  pub logical_resources : LogicalResources F
  pub nodes : HashMap NodeId (PhysicalNode F)
  pub topology : ClusterTopology F
