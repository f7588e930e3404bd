-- ===== src/Coordinator/Tests.antt =====
-- services/coordinator/src: a run with two nodes, at concrete inputs.
use tensorgrid.Base.{
  ℕ, ◌≡◌, ◌*◌, ◌/◌, ◌^◌, Option, none, some, List, [], ◌∷◌, arith, String, ite, String-discrete,
  id_key, ℕ_discrete, sum,
}
use tensorgrid.Float.Ratio.{Ratio, ratio}
use tensorgrid.Types.{healthy, suspect, Uuid}
use tensorgrid.Planner.Sample.{a_node, gpu, three}
use tensorgrid.Coordinator.{
  ClusterState, Event, registered, heartbeat, tick, RegisterNodeRequest, HeartbeatRequest, new, run,
  get_logical_cluster,
}
use tensorgrid.Coordinator.Lives.{life_of, aged, next_life, run_life, run-run_life}
use tensorgrid.Coordinator.Resources.{vram, get_logical_cluster-sum}

abbrev second : ℕ
second = 10 ^ 9

-- A parser that knows one text.
abbrev parse : String → Option Uuid
parse t = ite (String-discrete t "node-7") (some 7) none

abbrev register_request : RegisterNodeRequest Ratio
register_request = record {
  node_name = "a";
  hostname = "a";
  cluster_id = "";
  capabilities = (a_node 7 healthy (gpu ∷ [])).capabilities;
  resources = (a_node 7 healthy []).resources;
}

abbrev beat : HeartbeatRequest Ratio
beat = record { sequence = 1; resources = (a_node 7 healthy []).resources }

abbrev history : List (Event Ratio)
history =
    registered register_request 7 0
    ∷ registered register_request 8 0
    ∷ heartbeat "node-7" beat (9 * second)
    ∷ tick (15 * second)
    ∷ []

run-run_life_example : life_of (run parse (new 1) history) 8 ≡ some (suspect, 0)
unfolding run_life next_life aged ℕ_discrete String-discrete
run-run_life_example = run-run_life parse 1 history 8

abbrev nodes_at_0 : ClusterState Ratio
nodes_at_0 = record { cluster_id = 1; nodes = three.nodes }

get_logical_cluster-sum_example :
    let r = (get_logical_cluster ratio ratio nodes_at_0).logical_resources in
    (r.host_memory_bytes ≡ 76)
    × (r.device_memory_bytes ≡ 85 * 2 ^ 34 / 100)
    × (r.storage_bytes ≡ 150)
unfolding sum vram
get_logical_cluster-sum_example =
    get_logical_cluster-sum ratio ratio nodes_at_0 (omega arith) (omega arith) (omega arith)
