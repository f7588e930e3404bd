-- ===== src/Planner/Tests.antt =====
-- services/planner/src/lib.rs: the sample cluster at concrete requests.
use tensorgrid.Base.{refl, err, [], sum, ◌≡◌, none, arith}
use tensorgrid.Float.Ratio.{ratio, ratio-IsExact}
use tensorgrid.Planner.{
  no_available_nodes, available_nodes, partition_model, PlanningRequest, create_plan,
  partition_hybrid,
}
use tensorgrid.Planner.Partition.{IsPartition, hybrid_nodes, partition_hybrid-IsPartition}
use tensorgrid.Planner.Soundness.{IsAnswer, create_plan-IsAnswer}
use tensorgrid.Planner.Sample.{three}

abbrev ask : PlanningRequest
ask = record {
  model_id = "llama";
  model_metadata = record {
    parameter_count = 1000;
    layer_count = 5;
    architecture = "llama";
    quantization = "q4";
    estimated_weight_bytes = 1000;
  };
  context_length = 2048;
  batch_size = 1;
  preferred_strategy = none;
}

create_plan-IsAnswer_example : IsAnswer ask three (create_plan ratio ask three)
unfolding sum
create_plan-IsAnswer_example =
    create_plan-IsAnswer ratio ratio-IsExact ask three (omega arith) (omega arith) (omega arith)
      (omega arith) (omega arith)

partition_hybrid-IsPartition_example :
    IsPartition 5 (hybrid_nodes three.nodes) (partition_hybrid ratio ask.model_metadata three.nodes)
partition_hybrid-IsPartition_example =
    partition_hybrid-IsPartition ratio ratio-IsExact ask.model_metadata (omega arith) three.nodes
      (omega arith) (omega arith)

-- A cluster without nodes has no plan.
no_nodes : create_plan ratio ask (record three { nodes = [] }) ≡ err no_available_nodes
unfolding create_plan partition_model available_nodes
no_nodes = refl
