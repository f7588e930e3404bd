-- ===== src/Types/Hardware.antt =====
-- crates/cluster-types: what a node can do.
use tensorgrid.Base.{ℕ, String, Option, List, Bool}

pub data GpuVendor : Type 0 where
  nvidia amd intel apple unknown : GpuVendor

pub data Precision : Type 0 where
  fp32 fp16 bf16 int8 int4 fp8 : Precision

pub data RuntimeBackend : Type 0 where
  ggml cuda rocm mlx vulkan cpu : RuntimeBackend

pub record CpuCapabilities : Type 0 where
  pub architecture : String
  pub cores : ℕ  -- u32
  pub threads : ℕ  -- u32
  pub frequency_mhz : ℕ  -- u32
  pub features : List String
  pub numa_nodes : ℕ  -- u32

pub record GpuCapabilities : Type 0 where
  pub id : String
  pub name : String
  pub vendor : GpuVendor
  pub vram_bytes : ℕ  -- u64
  pub compute_capability : Option String
  pub supports_peer_to_peer : Bool
  pub supports_nvml : Bool
  pub supported_precisions : List Precision

pub record MemoryCapabilities : Type 0 where
  pub total_bytes : ℕ  -- u64
  pub available_bytes : ℕ  -- u64
  pub bandwidth_mbps : ℕ  -- u64

pub record StorageCapabilities : Type 0 where
  pub total_bytes : ℕ  -- u64
  pub available_bytes : ℕ  -- u64
  pub read_throughput_mbps : ℕ  -- u32
  pub write_throughput_mbps : ℕ  -- u32

pub record NetworkInterface : Type 0 where
  pub name : String
  pub ip_address : String
  pub mac_address : String
  pub bandwidth_mbps : ℕ  -- u32
  pub supports_rdma : Bool

pub record NetworkCapabilities : Type 0 where
  pub interfaces : List NetworkInterface

pub record NodeCapabilities : Type 0 where
  pub cpu : CpuCapabilities
  pub gpus : List GpuCapabilities
  pub memory : MemoryCapabilities
  pub storage : StorageCapabilities
  pub network : NetworkCapabilities
  pub supported_runtimes : List RuntimeBackend
