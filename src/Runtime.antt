-- ===== src/Runtime.antt =====
-- The runtimes: runtimes/cpu, runtimes/ggml, runtimes/cuda, runtimes/rocm and runtimes/mlx. They simulate
-- their work: a call gives its answer together with the milliseconds that it sleeps. `elapsed` is the time
-- that a call measures, in milliseconds, and `print` writes a number.
pub mod Cpu
pub mod Ggml
pub mod Cuda
pub mod Rocm
pub mod Mlx
pub mod Contract
pub mod Chain
mod Tests
use Prim.Native.String.{◌++◌ as str_append}
use tensorgrid.Base.{ℕ, ◌*◌, String, List, map, sum_u64}
use tensorgrid.Types.{TensorHandle}

abbrev pub joined : String → String → String
joined s t = str_append s t

abbrev pub mib : ℕ
mib = 1024 * 1024

abbrev pub gib : ℕ
gib = 1024 * 1024 * 1024

abbrev pub sizes : List TensorHandle → List ℕ
sizes = map (λ t. t.size)

-- `input_tensors.iter().map(|t| t.size).sum::<u64>()`
abbrev pub total_size : List TensorHandle → ℕ
total_size ts = sum_u64 0 (sizes ts)
