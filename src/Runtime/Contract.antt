-- ===== src/Runtime/Contract.antt =====
-- What the runtimes under runtimes/ have in common: an interface, its laws, and that each of the five obeys
-- them. `new` gives a ROCm or an MLX runtime no device; the laws are about every state.
use tensorgrid.Base.{
  sum_u64_wraps, sum_u64_wraps, ap, sum, u64, some, none, Option, List, guarded-runs, ok-injective,
  subst, guarded-ok, ℕ, ◌≡◌, ◌≤◌, refl, String, Bool, true, [], ◌∷◌, Result, ok, arith,
}
use tensorgrid.Types.{
  TensorSpec, TensorHandle, ModelShardSpec, ShardHandle, StageExecution, StageOutput,
  TensorTransfer, TransferReceipt,
}
use tensorgrid.Runtime.{sizes, total_size}
use tensorgrid.Runtime.Cpu
use tensorgrid.Runtime.Ggml
use tensorgrid.Runtime.Cuda
use tensorgrid.Runtime.Rocm
use tensorgrid.Runtime.Mlx

-- A runtime with its state and its printing: every answer comes with the time that it sleeps.
pub record Runtime : Type 1 where
  pub Error : Type 0
  pub check : Option Bool  -- what the runtime's check of its device says, if it makes one
  pub load_shard : ModelShardSpec → Result Error (ShardHandle × ℕ)
  pub allocate_tensor : TensorSpec → Result Error TensorHandle
  pub execute_stage : ℕ → StageExecution → Result Error (StageOutput × ℕ)
  pub transfer_tensor : ℕ → TensorTransfer → Result Error (TransferReceipt × ℕ)

abbrev pub passes : Option Bool → Bool
passes none = true
passes (some available) = available

abbrev IsLoaded : Option Bool → ModelShardSpec → ShardHandle × ℕ → Type 0
IsLoaded check spec a = (passes check ≡ true) × (a.0.shard_id ≡ spec.shard_id)

abbrev IsAllocated : Option Bool → TensorSpec → TensorHandle → Type 0
IsAllocated check spec t =
    (passes check ≡ true)
    × (1 ≤ spec.bytes)
    × (t.tensor_id ≡ spec.tensor_id)
    × (t.size ≡ spec.bytes)

abbrev IsExecuted : Option Bool → StageExecution → StageOutput × ℕ → Type 0
IsExecuted check request a =
    (passes check ≡ true)
    × (a.0.stage_id ≡ request.stage_id)
    × (sizes a.0.output_tensors ≡ u64 (sum (sizes request.input_tensors)) ∷ [])
    × (1 ≤ a.1)
    × (a.1 ≤ 1000)

abbrev IsTransferred : TensorTransfer → TransferReceipt × ℕ → Type 0
IsTransferred request a =
    (a.0.tensor_id ≡ request.tensor_id)
    × (a.0.bytes_transferred ≡ request.bytes)
    × (1 ≤ a.1)
    × (a.1 ≤ 5000)

-- A success is as it should be, and a load or a stage whose check passes is not refused. No check stands
-- before a transfer.
pub record IsRuntime (r : Runtime) : Type 0 where
  pub load_ok :
      (spec : ModelShardSpec) (a : ShardHandle × ℕ)
      → r.load_shard spec ≡ ok a
      → IsLoaded r.check spec a
  pub loads :
      (spec : ModelShardSpec)
      → passes r.check ≡ true
      → (a : ShardHandle × ℕ) × (r.load_shard spec ≡ ok a)
  pub allocate_ok :
      (spec : TensorSpec) (t : TensorHandle)
      → r.allocate_tensor spec ≡ ok t
      → IsAllocated r.check spec t
  pub execute_ok :
      (elapsed : ℕ) (request : StageExecution) (a : StageOutput × ℕ)
      → r.execute_stage elapsed request ≡ ok a
      → IsExecuted r.check request a
  pub executes :
      (elapsed : ℕ) (request : StageExecution)
      → passes r.check ≡ true
      → (a : StageOutput × ℕ) × (r.execute_stage elapsed request ≡ ok a)
  pub transfers :
      (elapsed : ℕ) (request : TensorTransfer)
      → (a : TransferReceipt × ℕ) × (r.transfer_tensor elapsed request ≡ ok a)
        × IsTransferred request a

total_size-mod : (ts : List TensorHandle) → total_size ts ≡ u64 (sum (sizes ts))
total_size-mod ts = omega (arith, sum_u64_wraps 0 (sizes ts) (omega arith))

total_size-single :
    (ts : List TensorHandle) → Path (List ℕ) (total_size ts ∷ []) (u64 (sum (sizes ts)) ∷ [])
total_size-single ts = ap (λ n. n ∷ []) (total_size-mod ts)

module _ (print : ℕ → String) where
  abbrev pub cpu : Cpu.CpuRuntime → Runtime
  cpu r = record {
    Error = Cpu.CpuError;
    check = none;
    load_shard = λ s. Cpu.load_shard print s r;
    allocate_tensor = λ s. Cpu.allocate_tensor print s r;
    execute_stage = λ e s. Cpu.execute_stage print e s r;
    transfer_tensor = λ e s. Cpu.transfer_tensor print e s r;
  }

  cpu-IsRuntime : (r : Cpu.CpuRuntime) → IsRuntime (cpu r)
  cpu-IsRuntime r = record {
    load_ok = λ s a e. subst (IsLoaded none s) (ok-injective _ a e) (refl, refl);
    loads = λ s on. (_, refl);
    allocate_ok = λ s t e. ground arith;
    execute_ok = λ elapsed q a e.
        subst (IsExecuted none q) (ok-injective _ a e)
          (refl, refl, total_size-single q.input_tensors, omega arith, omega arith);
    executes = λ elapsed q on. (_, refl);
    transfers = λ elapsed q. (_, refl, (refl, refl, omega arith, omega arith));
  }

  abbrev pub ggml : Ggml.GgmlRuntime → Runtime
  ggml r = record {
    Error = Ggml.GgmlError;
    check = none;
    load_shard = λ s. Ggml.load_shard print s r;
    allocate_tensor = λ s. Ggml.allocate_tensor print s r;
    execute_stage = λ e s. Ggml.execute_stage print e s r;
    transfer_tensor = λ e s. Ggml.transfer_tensor print e s r;
  }

  ggml-IsRuntime : (r : Ggml.GgmlRuntime) → IsRuntime (ggml r)
  ggml-IsRuntime r = record {
    load_ok = λ s a e. subst (IsLoaded none s) (ok-injective _ a e) (refl, refl);
    loads = λ s on. (_, refl);
    allocate_ok = λ s t e. ground arith;
    execute_ok = λ elapsed q a e.
        subst (IsExecuted none q) (ok-injective _ a e)
          (refl, refl, total_size-single q.input_tensors, omega arith, omega arith);
    executes = λ elapsed q on. (_, refl);
    transfers = λ elapsed q. (_, refl, (refl, refl, omega arith, omega arith));
  }

  abbrev pub cuda : Cuda.CudaRuntime → Runtime
  cuda r = record {
    Error = Cuda.CudaError;
    check = some (Cuda.is_available r);
    load_shard = λ s. Cuda.load_shard print s r;
    allocate_tensor = λ s. Cuda.allocate_tensor print s r;
    execute_stage = λ e s. Cuda.execute_stage print e s r;
    transfer_tensor = λ e s. Cuda.transfer_tensor print e s r;
  }

  cuda-IsRuntime : (r : Cuda.CudaRuntime) → IsRuntime (cuda r)
  cuda-IsRuntime r = record {
    load_ok = λ s a e.
        let (on, same) = guarded-ok (Cuda.is_available r) Cuda.device_not_initialized _ a e in
        subst (IsLoaded (some (Cuda.is_available r)) s) same (on, refl);
    loads = λ s on. (_, guarded-runs (Cuda.is_available r) Cuda.device_not_initialized _ on);
    allocate_ok = λ s t e. ground arith;
    execute_ok = λ elapsed q a e.
        let (on, same) = guarded-ok (Cuda.is_available r) Cuda.device_not_initialized _ a e in
        subst (IsExecuted (some (Cuda.is_available r)) q) same
          (on, refl, total_size-single q.input_tensors, omega arith, omega arith);
    executes =
        λ elapsed q on. (_, guarded-runs (Cuda.is_available r) Cuda.device_not_initialized _ on);
    transfers = λ elapsed q. (_, refl, (refl, refl, omega arith, omega arith));
  }

  abbrev pub rocm : Rocm.RocmRuntime → Runtime
  rocm r = record {
    Error = Rocm.RocmError;
    check = some (Rocm.is_available r);
    load_shard = λ s. Rocm.load_shard print s r;
    allocate_tensor = λ s. Rocm.allocate_tensor print s r;
    execute_stage = λ e s. Rocm.execute_stage print e s r;
    transfer_tensor = λ e s. Rocm.transfer_tensor print e s r;
  }

  rocm-IsRuntime : (r : Rocm.RocmRuntime) → IsRuntime (rocm r)
  rocm-IsRuntime r = record {
    load_ok = λ s a e.
        let (on, same) = guarded-ok (Rocm.is_available r) Rocm.device_not_available _ a e in
        subst (IsLoaded (some (Rocm.is_available r)) s) same (on, refl);
    loads = λ s on. (_, guarded-runs (Rocm.is_available r) Rocm.device_not_available _ on);
    allocate_ok = λ s t e. ground arith;
    execute_ok = λ elapsed q a e.
        let (on, same) = guarded-ok (Rocm.is_available r) Rocm.device_not_available _ a e in
        subst (IsExecuted (some (Rocm.is_available r)) q) same
          (on, refl, total_size-single q.input_tensors, omega arith, omega arith);
    executes =
        λ elapsed q on. (_, guarded-runs (Rocm.is_available r) Rocm.device_not_available _ on);
    transfers = λ elapsed q. (_, refl, (refl, refl, omega arith, omega arith));
  }

  abbrev pub mlx : Mlx.MlxRuntime → Runtime
  mlx r = record {
    Error = Mlx.MlxError;
    check = some (Mlx.is_available r);
    load_shard = λ s. Mlx.load_shard print s r;
    allocate_tensor = λ s. Mlx.allocate_tensor print s r;
    execute_stage = λ e s. Mlx.execute_stage print e s r;
    transfer_tensor = λ e s. Mlx.transfer_tensor print e s r;
  }

  mlx-IsRuntime : (r : Mlx.MlxRuntime) → IsRuntime (mlx r)
  mlx-IsRuntime r = record {
    load_ok = λ s a e.
        let (on, same) = guarded-ok (Mlx.is_available r) Mlx.device_not_available _ a e in
        subst (IsLoaded (some (Mlx.is_available r)) s) same (on, refl);
    loads = λ s on. (_, guarded-runs (Mlx.is_available r) Mlx.device_not_available _ on);
    allocate_ok = λ s t e. ground arith;
    execute_ok = λ elapsed q a e.
        let (on, same) = guarded-ok (Mlx.is_available r) Mlx.device_not_available _ a e in
        subst (IsExecuted (some (Mlx.is_available r)) q) same
          (on, refl, total_size-single q.input_tensors, omega arith, omega arith);
    executes = λ elapsed q on. (_, guarded-runs (Mlx.is_available r) Mlx.device_not_available _ on);
    transfers = λ elapsed q. (_, refl, (refl, refl, omega arith, omega arith));
  }

  -- Each of the five runtimes, in any state, obeys the laws. Where a runtime checks for its device (CUDA,
  -- ROCm and MLX do), a shard is loaded, a tensor allocated and a stage executed only if the check passes;
  -- and a shard is loaded and a stage executed whenever it passes or there is none. A tensor is allocated as
  -- it was asked for, and none of size 0. A stage gives one tensor whose size is the sum
  -- of its inputs' modulo 2^64. Every
  -- transfer succeeds, with or without a device, and its receipt names the tensor and all the bytes that
  -- were asked for. No stage sleeps more than one second, no transfer more than five.
  pub all-IsRuntime :
      (c : Cpu.CpuRuntime) (g : Ggml.GgmlRuntime) (d : Cuda.CudaRuntime) (a : Rocm.RocmRuntime)
      (m : Mlx.MlxRuntime)
      → IsRuntime (cpu c)
        × IsRuntime (ggml g)
        × IsRuntime (cuda d)
        × IsRuntime (rocm a)
        × IsRuntime (mlx m)
  all-IsRuntime c g d a m =
      (cpu-IsRuntime c, ggml-IsRuntime g, cuda-IsRuntime d, rocm-IsRuntime a, mlx-IsRuntime m)
