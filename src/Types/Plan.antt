-- ===== src/Types/Plan.antt =====
-- crates/cluster-types: execution plans, and where tensors lie.
use tensorgrid.Base.{ℕ, String, List}
use tensorgrid.Types.Node.{NodeId, ParallelismStrategy}

abbrev pub ModelId : Type 0
ModelId = String

abbrev pub TensorId : Type 0
TensorId = String

pub data PlacementRole : Type 0 where
  primary replica warm_copy : PlacementRole

pub record PhysicalPlacement : Type 0 where
  pub node_id : NodeId
  pub device : String
  pub offset : ℕ  -- u64
  pub length : ℕ  -- u64
  pub role : PlacementRole

pub record PerformanceEstimate (F : Type 0) : Type 0 where
  pub load_seconds : F
  pub prompt_tokens_per_second : F
  pub decode_tokens_per_second : F

pub record StagePlan : Type 0 where
  pub id : ℕ  -- u32
  pub node_id : NodeId
  pub device : String
  pub layers : List ℕ  -- u32
  pub weight_bytes : ℕ  -- u64

pub data KvCachePolicy : Type 0 where
  stage_local stage_local_with_host_spill distributed : KvCachePolicy

pub record KvCachePlan : Type 0 where
  pub policy : KvCachePolicy
  pub reserved_bytes : ℕ  -- u64

pub record ExecutionPlan (F : Type 0) : Type 0 where
  pub model_id : ModelId
  pub strategy : ParallelismStrategy
  pub estimated : PerformanceEstimate F
  pub stages : List StagePlan
  pub kv_cache : KvCachePlan
