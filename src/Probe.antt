-- ===== src/Probe.antt =====
-- crates/hardware-probe/src/lib.rs: what the agent finds out of its machine. What sysinfo, WMI, the build
-- and the file system say is an argument.
pub mod Numbers
pub mod Answers
pub mod Tests
use text.Mathlib.Text.{find?, ◌==◌ as text_eq}
use Prim.Native.String.{len, ◌++◌ as joined}
use mathlib.Core.Option
use tensorgrid.Base.{
  ℕ, ◌==◌, zero, suc, String, Bool, true, false, not, ◌||◌, ◌&&◌, ◌+◌, Option, none, some, List, [],
  ◌∷◌, ◌++◌, map, retain, length, if◌then◌else◌, u32, sum_u64, Result, ok, err, ◌>>=◌, after,
  and_then, name_key,
}
use tensorgrid.HashMap.{HashMap, get, keys}
use tensorgrid.Probe.Numbers.{parse_u64}
use tensorgrid.Types.{
  CpuCapabilities, GpuCapabilities, GpuVendor, nvidia, amd, intel, unknown, MemoryCapabilities,
  StorageCapabilities, NetworkInterface, NetworkCapabilities, NodeCapabilities, RuntimeBackend, cpu,
  ggml, cuda, rocm, mlx, vulkan, Precision, fp16, fp32,
}

-- `s.contains(t)`
abbrev pub contains_text : String → String → Bool
contains_text s t = elim (find? s t) [ none ↦ false | some i ↦ true ]

-- What the build decides: the target, and the feature `nvidia`.
pub record Target : Type 0 where
  pub arch : String
  pub x86_64 : Bool
  pub windows : Bool
  pub linux : Bool
  pub macos : Bool
  pub nvidia_feature : Bool

pub record Disk : Type 0 where
  pub total_space : ℕ  -- u64
  pub available_space : ℕ  -- u64

-- One reading of sysinfo; a network's data is not read.
pub record System : Type 0 where
  pub physical_core_count : Option ℕ
  pub cpus : List ℕ  -- the frequency of each
  pub total_memory : ℕ  -- u64
  pub available_memory : ℕ  -- u64
  pub disks : List Disk
  pub networks : List String

-- `s` where the test holds, and the empty text elsewhere.
abbrev text_if : Bool → String → String
text_if b s = if b then s else ""

abbrev pub is_empty : String → Bool
is_empty s = len s == 0

abbrev first : List ℕ → ℕ
first [] = 0
first (x ∷ xs) = x

abbrev pub probe_cpu : Target → System → CpuCapabilities
probe_cpu target sys = record {
  architecture = target.arch;
  cores = u32 (elim sys.physical_core_count [ none ↦ 1 | some n ↦ n ]);
  threads = u32 (length sys.cpus);
  frequency_mhz = u32 (first sys.cpus);
  features =
      retain (λ s. not (is_empty s))
        ("aes" ∷ text_if target.x86_64 "avx2" ∷ text_if target.x86_64 "sse4.2" ∷ []);
  numa_nodes = 1;
}

abbrev pub probe_memory : System → MemoryCapabilities
probe_memory sys = record {
  total_bytes = sys.total_memory;
  available_bytes = sys.available_memory;
  bandwidth_mbps = 25600;
}

abbrev pub probe_storage : System → StorageCapabilities
probe_storage sys = record {
  total_bytes = sum_u64 0 (map (λ d. d.total_space) sys.disks);
  available_bytes = sum_u64 0 (map (λ d. d.available_space) sys.disks);
  read_throughput_mbps = 3500;
  write_throughput_mbps = 3000;
}

abbrev pub interface : String → NetworkInterface
interface name = record {
  name = name;
  ip_address = "";
  mac_address = "";
  bandwidth_mbps = 1000;
  supports_rdma = false;
}

abbrev pub probe_network : System → NetworkCapabilities
probe_network sys = record {
  interfaces = map interface (retain (λ name. not (contains_text name "Loopback")) sys.networks);
}

abbrev pub vendor_of : String → GpuVendor
vendor_of s =
    if contains_text s "NVIDIA"
    then nvidia
    else if contains_text s "AMD" || contains_text s "ATI"
    then amd
    else if contains_text s "Intel"
    then intel
    else unknown

abbrev pub is_nvidia : GpuVendor → Bool
is_nvidia nvidia = true
is_nvidia _ = false

abbrev text_or : String → Option String → String
text_or default none = default
text_or default (some s) = s

abbrev pub vram_of : HashMap String String → ℕ
vram_of gpu_info = elim (and_then parse_u64 (get "AdapterRAM" gpu_info)) [ none ↦ 0 | some n ↦ n ]

-- `print` is the decimal text of a number. One row of WMI's answer, at this index.
abbrev pub gpu_of : (ℕ → String) → ℕ → HashMap String String → GpuCapabilities
gpu_of print i gpu_info =
    let vendor = vendor_of (text_or "Unknown" (get "AdapterCompatibility" gpu_info)) in
    record {
      id = joined "gpu:" (print i);
      name = text_or "Unknown GPU" (get "Name" gpu_info);
      vendor = vendor;
      vram_bytes = vram_of gpu_info;
      compute_capability = none;
      supports_peer_to_peer = false;
      supports_nvml = is_nvidia vendor;
      supported_precisions = fp16 ∷ fp32 ∷ [];
    }

unfoldable pub gpus_from : (ℕ → String) → ℕ → List (HashMap String String) → List GpuCapabilities
gpus_from print i [] = []
gpus_from print i (gpu_info ∷ rest) = gpu_of print i gpu_info ∷ gpus_from print (suc i) rest

module _ {E : Type 0} (print : ℕ → String) where
  -- `answer` is WMI's, or the failure of its library or connection.
  unfoldable pub probe_wmi_gpus :
      Result E (List (HashMap String String)) → Result E (List GpuCapabilities)
  probe_wmi_gpus answer = answer >>= λ results. ok (gpus_from print 0 results)

  abbrev pub extend_ok :
      List GpuCapabilities → Result E (List GpuCapabilities) → List GpuCapabilities
  extend_ok gpus (ok more) = gpus ++ more
  extend_ok gpus (err e) = gpus

  abbrev pub probe_nvidia_gpus : Result E (List GpuCapabilities)
  probe_nvidia_gpus = ok []

  unfoldable pub probe_gpus :
      Target → Result E (List (HashMap String String)) → List GpuCapabilities
  probe_gpus target answer =
      let gpus = if target.nvidia_feature then extend_ok [] probe_nvidia_gpus else [] in
      if target.windows then extend_ok gpus (probe_wmi_gpus answer) else gpus

-- Which of the paths and variables that the probe asks for are there.
pub record Installed : Type 0 where
  pub usr_local_cuda : Bool
  pub cuda_path : Bool
  pub opt_rocm : Bool

abbrev pub has_cuda : Installed → Bool
has_cuda i = i.usr_local_cuda || i.cuda_path

abbrev pub has_apple_silicon : Target → Bool
has_apple_silicon target = text_eq target.arch "aarch64"

abbrev push_if : Bool → RuntimeBackend → List RuntimeBackend → List RuntimeBackend
push_if b r rs = if b then rs ++ r ∷ [] else rs

unfoldable pub detect_supported_runtimes : Target → Installed → List RuntimeBackend
detect_supported_runtimes target i =
    let with_ggml = cpu ∷ ggml ∷ [] in
    let with_cuda = push_if (target.nvidia_feature && has_cuda i) cuda with_ggml in
    let with_rocm = push_if (target.linux && i.opt_rocm) rocm with_cuda in
    let with_mlx = push_if (target.macos && has_apple_silicon target) mlx with_rocm in
    with_mlx ++ vulkan ∷ []

-- No part fails: the failure of WMI is passed over.
abbrev pub probe_all :
    {E : Type 0}
    → (ℕ → String)
    → Target
    → Installed
    → System
    → Result E (List (HashMap String String))
    → NodeCapabilities
probe_all print target i sys answer = record {
  cpu = probe_cpu target sys;
  gpus = probe_gpus print target answer;
  memory = probe_memory sys;
  storage = probe_storage sys;
  network = probe_network sys;
  supported_runtimes = detect_supported_runtimes target i;
}
