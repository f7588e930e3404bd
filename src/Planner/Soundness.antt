-- ===== src/Planner/Soundness.antt =====
-- services/planner/src/lib.rs: `create_plan`.
use tensorgrid.Base.{
  subst, ◌^◌, ◌≤◌, ◌<◌, ◌≡◌, ◌≢◌, refl, true, false, List, [], ◌∷◌, arith, length, Bool-cases, inl,
  inr, Result, ok, err, length-retain-le,
}
use tensorgrid.Float.{Float, IsExact, exact_limit}
use tensorgrid.Types.{
  ExecutionPlan, ParallelismStrategy, pipeline, tensor, pipeline_hybrid, expert, parallel_data,
  LogicalCluster,
}
use tensorgrid.Planner.{
  PlanningRequest, PlanningError, no_available_nodes, Nodes, is_healthy, available_nodes,
  partition_nodes, partition_model, select_strategy, create_plan, is_empty,
}
use tensorgrid.Planner.Choice.{
  IsHealthyOf, strategy_of, bandwidth_sum, latency_sum, available_nodes-IsHealthyOf,
  select_strategy-strategy_of,
}
use tensorgrid.Planner.Partition.{
  IsPartition, hybrid_nodes, partition_pipeline-IsPartition, partition_hybrid-IsPartition,
  length-pos,
}

module _ {F : Type 0} where
  -- The nodes that a strategy uses, of the available ones.
  pub nodes_for : ParallelismStrategy → Nodes F → Nodes F
  nodes_for pipeline_hybrid nodes = hybrid_nodes nodes
  nodes_for _ nodes = nodes

  pub record IsPlan (r : PlanningRequest) (c : LogicalCluster F) (p : ExecutionPlan F)
      : Type 0 where
    pub same_model : p.model_id ≡ r.model_id
    pub selected : p.strategy ≡ strategy_of r c.topology.links
    pub usable : Nodes F
    pub usable_healthy : IsHealthyOf c.nodes usable
    pub some_node : usable ≢ []
    pub partition : IsPartition r.model_metadata.layer_count (nodes_for p.strategy usable) p.stages

  -- A plan is as the request asks, and the one error is that no node is healthy.
  pub IsAnswer :
      PlanningRequest → LogicalCluster F → Result PlanningError (ExecutionPlan F) → Type 0
  IsAnswer r c (ok p) = IsPlan r c p
  IsAnswer r c (err e) = (e ≡ no_available_nodes) × IsHealthyOf c.nodes []

module _ {F : Type 0} (fl : Float F) (exact : IsExact fl) (r : PlanningRequest)
    (few_layers : r.model_metadata.layer_count ≤ exact_limit) where
  partition_nodes-IsPartition :
      (s : ParallelismStrategy) (nodes : Nodes F)
      → 0 < length nodes
      → length nodes ≤ exact_limit
      → IsPartition r.model_metadata.layer_count
          (nodes_for s nodes)
          (partition_nodes fl s r.model_metadata nodes)
  unfolding nodes_for
  partition_nodes-IsPartition pipeline_hybrid nodes h k =
      partition_hybrid-IsPartition fl exact r.model_metadata few_layers nodes h k
  partition_nodes-IsPartition pipeline nodes h k =
      partition_pipeline-IsPartition fl exact r.model_metadata few_layers nodes h k
  partition_nodes-IsPartition tensor nodes h k =
      partition_pipeline-IsPartition fl exact r.model_metadata few_layers nodes h k
  partition_nodes-IsPartition expert nodes h k =
      partition_pipeline-IsPartition fl exact r.model_metadata few_layers nodes h k
  partition_nodes-IsPartition parallel_data nodes h k =
      partition_pipeline-IsPartition fl exact r.model_metadata few_layers nodes h k

is_empty-nil {ℓ} : {A : Type ℓ} (xs : List A) → is_empty xs ≡ true → xs ≡ []
is_empty-nil [] h = refl
is_empty-nil (x ∷ xs) h = cc

is_empty-ne-nil {ℓ} : {A : Type ℓ} (xs : List A) → is_empty xs ≡ false → xs ≢ []
is_empty-ne-nil [] h = cc
is_empty-ne-nil (x ∷ xs) h = λ e. cc

few_available :
    {F : Type 0} (c : LogicalCluster F)
    → length c.nodes ≤ exact_limit
    → length (available_nodes c) ≤ exact_limit
unfolding available_nodes
few_available c h = omega (arith, length-retain-le is_healthy c.nodes)

-- Where integers up to 2^24 are exact as floats, for a model and a cluster of at most 2^24 layers and
-- nodes, and for fewer than 2^32 links whose bandwidths and latencies have sums that fit in a u32:
-- `create_plan` fails exactly if no node is healthy, with that error; else its plan is for the requested
-- model and the preferred strategy. Without a preference the strategy is hybrid where the links' mean
-- bandwidth is at least 10000 and their mean latency below 100, else pipeline where they are at least 2500
-- and below 500, else hybrid where the bandwidth is at least 1000 or there are no links, else pipeline.
-- The plan deals every layer once and in order to the healthy nodes, or to those of them that the strategy
-- uses, in turn: to each at least one and at most its share, rounded up.
pub create_plan-IsAnswer :
    {F : Type 0} (fl : Float F)
    → IsExact fl
    → (r : PlanningRequest) (c : LogicalCluster F) → r.model_metadata.layer_count ≤ exact_limit
    → length c.nodes ≤ exact_limit
    → length c.topology.links < 2 ^ 32
    → bandwidth_sum c.topology.links < 2 ^ 32
    → latency_sum c.topology.links < 2 ^ 32
    → IsAnswer r c (create_plan fl r c)
unfolding create_plan partition_model IsAnswer
create_plan-IsAnswer fl exact r c few_layers few_nodes few_links bs ls =
    let nodes = available_nodes c in
    let healthy_nodes = available_nodes-IsHealthyOf c in
    elim (Bool-cases (is_empty nodes)) [
      | inl no_node ↦
          rw no_node (refl, subst (IsHealthyOf c.nodes) (is_empty-nil nodes no_node) healthy_nodes)
      | inr some_node ↦ rw some_node (record {
        same_model = refl;
        selected = select_strategy-strategy_of r c few_links bs ls;
        usable = nodes;
        usable_healthy = healthy_nodes;
        some_node = is_empty-ne-nil nodes some_node;
        partition =
            partition_nodes-IsPartition fl exact r few_layers (select_strategy r c) nodes
              (length-pos nodes some_node) (few_available c few_nodes);
      })
    ]
