-- ===== src/Planner/Sample.antt =====
-- Sample data for the tests: a cluster of three nodes, one with a GPU and one suspect.
use tensorgrid.Base.{ℕ, ◌^◌, true, false, none, List, [], ◌∷◌}
use tensorgrid.Float.Ratio.{Ratio}
use tensorgrid.Types.{
  PhysicalNode, NodeStatus, healthy, suspect, GpuCapabilities, nvidia, LogicalCluster,
  LinkMeasurement, pipeline,
}

abbrev pub a_node : ℕ → NodeStatus → List GpuCapabilities → PhysicalNode Ratio
a_node n status gpus = record {
  id = n;
  name = "node";
  hostname = "node";
  cluster_id = 1;
  capabilities = record {
    cpu = record {
      architecture = "x86_64";
      cores = 8;
      threads = 16;
      frequency_mhz = 3000;
      features = [];
      numa_nodes = 1;
    };
    gpus = gpus;
    memory = record { total_bytes = 64; available_bytes = 32; bandwidth_mbps = 100 };
    storage = record {
      total_bytes = 100;
      available_bytes = 50;
      read_throughput_mbps = 10;
      write_throughput_mbps = 10;
    };
    network = record { interfaces = [] };
    supported_runtimes = [];
  };
  resources = record {
    cpu_usage_percent = (0, 1);
    memory_used_bytes = 0;
    memory_committed_bytes = 0;
    gpu_usage = [];
    network_tx_mbps = (0, 1);
    network_rx_mbps = (0, 1);
    temperature_celsius = none;
  };
  permissions = record {
    max_cpu_percent = 80;
    max_cpu_threads = none;
    max_ram_bytes = 32;
    gpu_enabled = true;
    max_vram_bytes = 32;
    max_storage_bytes = 50;
    allow_when_on_battery = false;
    pause_when_user_active = true;
    allowed_schedule = none;
  };
  status = status;
  last_heartbeat = 0;
  certificate_fingerprint = none;
}

abbrev pub gpu : GpuCapabilities
gpu = record {
  id = "0";
  name = "gpu";
  vendor = nvidia;
  vram_bytes = 2 ^ 34;
  compute_capability = none;
  supports_peer_to_peer = false;
  supports_nvml = true;
  supported_precisions = [];
}

abbrev pub fast_link : LinkMeasurement Ratio
fast_link = record {
  from = 11;
  to = 12;
  transport = "tcp";
  latency_us = 50;
  bandwidth_mbps = 20000;
  jitter_us = 1;
  packet_loss_percent = (0, 1);
}

abbrev pub three : LogicalCluster Ratio
three = record {
  id = 1;
  name = "cluster";
  logical_resources = record {
    cpu_compute_units = (24, 1);
    host_memory_bytes = 2 ^ 36;
    device_memory_bytes = 2 ^ 20;
    storage_bytes = 2 ^ 40;
    preferred_parallelism = pipeline;
  };
  nodes =
      (11, a_node 11 healthy [])
      ∷ (12, a_node 12 healthy (gpu ∷ []))
      ∷ (13, a_node 13 suspect [])
      ∷ [];
  topology = record { nodes = []; links = fast_link ∷ fast_link ∷ [] };
}
