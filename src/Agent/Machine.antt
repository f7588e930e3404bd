-- ===== src/Agent/Machine.antt =====
-- services/node-agent/src/resource_manager.rs and runtime_adapter.rs: what the agent says of its
-- machine. The readings of sysinfo are arguments.
use tensorgrid.Base.{ℕ, ◌*◌, String, none, List, [], ◌∷◌, Result, ok, err}
use tensorgrid.Float.{Float}
use tensorgrid.Types.{
  NodeCapabilities, NodeResources, RuntimeBackend, ggml, cpu, ModelShardSpec, TensorSpec,
  ShardHandle, TensorHandle,
}

pub record ResourceManager : Type 0 where
  pub capabilities : NodeCapabilities

abbrev pub gib : ℕ
gib = 1024 * 1024 * 1024

abbrev pub default_capabilities : NodeCapabilities
default_capabilities = record {
  cpu = record {
    architecture = "unknown";
    cores = 4;
    threads = 8;
    frequency_mhz = 3000;
    features = [];
    numa_nodes = 1;
  };
  gpus = [];
  memory = record { total_bytes = 16 * gib; available_bytes = 16 * gib; bandwidth_mbps = 25000 };
  storage = record {
    total_bytes = 1024 * gib;
    available_bytes = 1024 * gib;
    read_throughput_mbps = 3500;
    write_throughput_mbps = 3000;
  };
  network = record { interfaces = [] };
  supported_runtimes = ggml ∷ cpu ∷ [];
}

-- `probed` is what `HardwareProbe::probe_all` gives.
abbrev pub new_manager : {E : Type 0} → Result E NodeCapabilities → ResourceManager
new_manager (ok probed) = record { capabilities = probed }
new_manager (err e) = record { capabilities = default_capabilities }

-- `cpu_usage` and `used_memory` are read from sysinfo.
abbrev pub get_current_resources : {F : Type 0} → Float F → F → ℕ → NodeResources F
get_current_resources fl cpu_usage used_memory = record {
  cpu_usage_percent = cpu_usage;
  memory_used_bytes = used_memory;
  memory_committed_bytes = used_memory;
  gpu_usage = [];
  network_tx_mbps = fl.lit 0 0;
  network_rx_mbps = fl.lit 0 0;
  temperature_celsius = none;
}

pub record RuntimeAdapter : Type 0 where
  pub backend : RuntimeBackend

pub record RuntimeCapabilities : Type 0 where
  pub backend : RuntimeBackend
  pub supported_dtypes : List String
  pub max_tensor_size : ℕ  -- u64

abbrev pub new_adapter : RuntimeAdapter
new_adapter = record { backend = ggml }

abbrev pub probe : RuntimeAdapter → RuntimeCapabilities
probe r = record {
  backend = r.backend;
  supported_dtypes = "f32" ∷ "f16" ∷ "q4_k_m" ∷ [];
  max_tensor_size = 16 * gib;
}

abbrev pub load_shard : {E : Type 0} → ModelShardSpec → RuntimeAdapter → Result E ShardHandle
load_shard spec r = ok (record { shard_id = 0; backend = r.backend })

abbrev pub allocate_tensor : {E : Type 0} → TensorSpec → RuntimeAdapter → Result E TensorHandle
allocate_tensor spec r =
    ok (record { tensor_id = "placeholder"; device = "cpu"; offset = 0; size = 0 })
