-- ===== src/Planner.antt =====
-- services/planner/src/lib.rs: from a cluster and a request to an execution plan. Metrics and log
-- lines are left out.
pub mod Averages
pub mod Layers
pub mod Partition
pub mod Soundness
pub mod Strategy
pub mod Choice
pub mod Sample
pub mod Tests
use Prim.Native.String.{◌++◌ as str_append}
use text.Mathlib.Text.{starts_with}
use tensorgrid.Base.{
  ℕ, zero, suc, ◌+◌, ◌-◌, ◌*◌, ◌/◌, String, ite, Bool, true, false, not, ◌&&◌, ◌||◌, Option, none,
  some, List, [], ◌∷◌, ◌++◌, map, min, length, retain, ltb, leb, if◌then◌else◌, u32, u64, sum_u32,
  Result, ok, err, ◌>>=◌, id_key,
}
use tensorgrid.HashMap.{HashMap, get}
use tensorgrid.Float.{Float, gt}
use tensorgrid.Types.{
  NodeId, ModelId, PhysicalNode, NodeStatus, healthy, GpuCapabilities, ParallelismStrategy,
  pipeline, tensor, pipeline_hybrid, expert, parallel_data, LinkMeasurement, ClusterTopology,
  LogicalCluster, PerformanceEstimate, StagePlan, KvCachePolicy, stage_local,
  stage_local_with_host_spill, distributed, KvCachePlan, ExecutionPlan,
}

pub record ModelMetadata : Type 0 where
  pub parameter_count : ℕ  -- u64
  pub layer_count : ℕ  -- u32
  pub architecture : String
  pub quantization : String
  pub estimated_weight_bytes : ℕ  -- u64

pub record PlanningRequest : Type 0 where
  pub model_id : ModelId
  pub model_metadata : ModelMetadata
  pub context_length : ℕ  -- u32
  pub batch_size : ℕ  -- u32
  pub preferred_strategy : Option ParallelismStrategy

pub data PlanningError : Type 0 where
  no_available_nodes model_too_large : PlanningError
  invalid_plan internal : String → PlanningError

-- `topology.links.iter().map(f).sum::<u32>() / links.len()`, or 1000 where there are no links.
abbrev average : List ℕ → ℕ
average [] = 1000
average (x ∷ xs) = sum_u32 0 (x ∷ xs) / u32 (length (x ∷ xs))

module _ {F : Type 0} where
  unfoldable pub average_bandwidth : ClusterTopology F → ℕ
  average_bandwidth t = average (map (λ l. l.bandwidth_mbps) t.links)

  unfoldable pub average_latency : ClusterTopology F → ℕ
  average_latency t = average (map (λ l. l.latency_us) t.links)

  unfoldable pub select_strategy : PlanningRequest → LogicalCluster F → ParallelismStrategy
  select_strategy r c = elim r.preferred_strategy [
    | some s ↦ s
    | none ↦
        let bandwidth = average_bandwidth c.topology in
        let latency = average_latency c.topology in
        if leb 10000 bandwidth && ltb latency 100
        then pipeline_hybrid
        else if leb 2500 bandwidth && ltb latency 500
        then pipeline
        else if leb 1000 bandwidth
        then pipeline_hybrid
        else pipeline
  ]

abbrev pub Nodes : Type 0 → Type 0
Nodes F = List (NodeId × PhysicalNode F)

abbrev pub is_healthy : {F : Type 0} → NodeId × PhysicalNode F → Bool
is_healthy (_, node) = elim node.status [ healthy ↦ true | _ ↦ false ]

abbrev pub has_gpu : {F : Type 0} → PhysicalNode F → Bool
has_gpu node = elim node.capabilities.gpus [ [] ↦ false | _ ∷ _ ↦ true ]

unfoldable pub available_nodes : {F : Type 0} → LogicalCluster F → Nodes F
available_nodes c = retain is_healthy c.nodes

unfoldable pub select_device : {F : Type 0} → PhysicalNode F → String
select_device node = elim node.capabilities.gpus [
  | [] ↦ "cpu:0"
  | gpu ∷ _ ↦ str_append "cuda:" gpu.id
]

-- `(a..b).collect()` is `iota a (b - a)`.
unfoldable pub iota : ℕ → ℕ → List ℕ
iota a zero = []
iota a (suc n) = a ∷ iota (a + 1) n

abbrev pub is_empty {ℓ} : {A : Type ℓ} → List A → Bool
is_empty [] = true
is_empty (_ ∷ _) = false

module _ {F : Type 0} (fl : Float F) where
  pub estimate_stage_weight : List ℕ → ℕ → ℕ → ℕ
  estimate_stage_weight layers total_weight_bytes total_layers =
      let fraction = fl.div (fl.of_ℕ (length layers)) (fl.of_ℕ total_layers) in
      fl.to_u64 (fl.mul (fl.of_ℕ total_weight_bytes) fraction)

  -- The stage of the `i`th node, with the given layers.
  abbrev pub stage : ModelMetadata → ℕ → NodeId → String → List ℕ → StagePlan
  stage m i node device layers = record {
    id = u32 i;
    node_id = node;
    device = device;
    layers = layers;
    weight_bytes = estimate_stage_weight layers m.estimated_weight_bytes m.layer_count;
  }

  -- The loop over the nodes, from the `i`th on: the stages, and the layer that comes next.
  unfoldable pub assign_layers : ModelMetadata → ℕ → ℕ → ℕ → Nodes F → List StagePlan × ℕ
  assign_layers m per_node i current [] = ([], current)
  assign_layers m per_node i current ((id, node) ∷ nodes) =
      let end_layer = min (u32 (current + per_node)) m.layer_count in
      let layers = iota current (end_layer - current) in
      let skipped = assign_layers m per_node (i + 1) current nodes in
      let (stages, last) = assign_layers m per_node (i + 1) end_layer nodes in
      if is_empty layers then skipped else (stage m i id (select_device node) layers ∷ stages, last)

  -- `(layer_count as f32 / nodes as f32).ceil() as u32`
  abbrev pub layers_per : ℕ → ℕ → ℕ
  layers_per layer_count nodes = fl.to_u32 (fl.ceil (fl.div (fl.of_ℕ layer_count) (fl.of_ℕ nodes)))

  unfoldable pub partition_pipeline : ModelMetadata → Nodes F → List StagePlan
  partition_pipeline m nodes =
      (assign_layers m (layers_per m.layer_count (length nodes)) 0 0 nodes).0

  -- The stage on the first node without a GPU, for the layers that are left.
  pub cpu_stage : ModelMetadata → List StagePlan → ℕ → Nodes F → List StagePlan
  cpu_stage m stages current [] = []
  cpu_stage m stages current ((id, node) ∷ _) =
      stage m (length stages) id "cpu:0" (iota current (m.layer_count - current)) ∷ []

  unfoldable pub partition_hybrid : ModelMetadata → Nodes F → List StagePlan
  partition_hybrid m nodes =
      let gpu_nodes = retain (λ n. has_gpu n.1) nodes in
      let cpu_nodes = retain (λ n. not (has_gpu n.1)) nodes in
      let per_gpu = layers_per m.layer_count (length gpu_nodes) in
      let (stages, current) = assign_layers m per_gpu 0 0 gpu_nodes in
      let rest = if ltb current m.layer_count then cpu_stage m stages current cpu_nodes else [] in
      if is_empty gpu_nodes then partition_pipeline m nodes else stages ++ rest

  abbrev pub partition_nodes : ParallelismStrategy → ModelMetadata → Nodes F → List StagePlan
  partition_nodes pipeline_hybrid m nodes = partition_hybrid m nodes
  partition_nodes _ m nodes = partition_pipeline m nodes

  unfoldable pub partition_model :
      PlanningRequest
      → LogicalCluster F
      → ParallelismStrategy
      → Result PlanningError (List StagePlan)
  partition_model r c strategy =
      let nodes = available_nodes c in
      if is_empty nodes
      then err no_available_nodes
      else ok (partition_nodes strategy r.model_metadata nodes)

unfoldable pub plan_kv_cache : {F : Type 0} → PlanningRequest → LogicalCluster F → KvCachePlan
plan_kv_cache r c =
    let total = u64 (u64 (2 * 4096 * 2 * r.context_length) * r.model_metadata.layer_count) in
    record {
      policy =
          if ltb c.logical_resources.device_memory_bytes total
          then stage_local_with_host_spill
          else stage_local;
      reserved_bytes = total;
    }

module _ {F : Type 0} (fl : Float F) where
  abbrev gpu_score : List GpuCapabilities → F
  gpu_score [] = fl.lit 50 1
  gpu_score (gpu ∷ _) =
      fl.mul (fl.div (fl.of_ℕ gpu.vram_bytes) (fl.of_ℕ (1024 * 1024 * 1024))) (fl.of_ℕ 10)

  stage_score : StagePlan → PhysicalNode F → F
  stage_score s node =
      if starts_with s.device "cuda" || starts_with s.device "gpu"
      then gpu_score node.capabilities.gpus
      else fl.mul (fl.of_ℕ node.capabilities.cpu.cores) (fl.lit 5 1)

  -- The fold of `f32::min` over the scores of the stages whose node is known.
  min_score : HashMap NodeId (PhysicalNode F) → F → List StagePlan → F
  min_score nodes acc [] = acc
  min_score nodes acc (s ∷ ss) =
      min_score nodes
        (elim (get s.node_id nodes) [ none ↦ acc | some node ↦ fl.min acc (stage_score s node) ]) ss

  abbrev spill_penalty : KvCachePolicy → F → F
  spill_penalty stage_local_with_host_spill x = fl.mul x (fl.lit 7 1)
  spill_penalty _ x = x

  unfoldable pub estimate_performance :
      PlanningRequest → LogicalCluster F → List StagePlan → KvCachePlan → PerformanceEstimate F
  unfolding stage_score min_score
  estimate_performance r c stages kv =
      let slowest = min_score c.nodes fl.infinity stages in
      let decode = if fl.is_finite slowest then slowest else fl.of_ℕ 1 in
      let effective = fl.mul (fl.mul (fl.of_ℕ 100) (fl.of_ℕ 1024)) (fl.of_ℕ 1024) in
      record {
        load_seconds =
            fl.add (fl.div (fl.of_ℕ r.model_metadata.estimated_weight_bytes) effective) (fl.of_ℕ 5);
        prompt_tokens_per_second = fl.mul decode (fl.of_ℕ 3);
        decode_tokens_per_second = spill_penalty kv.policy decode;
      }

  unfoldable pub create_plan :
      PlanningRequest → LogicalCluster F → Result PlanningError (ExecutionPlan F)
  create_plan r c =
      let strategy = select_strategy r c in
      partition_model fl r c strategy >>= λ stages.
      let kv = plan_kv_cache r c in
      ok (record {
        model_id = r.model_id;
        strategy = strategy;
        estimated = estimate_performance r c stages kv;
        stages = stages;
        kv_cache = kv;
      })
