-- ===== src/Runtime/Cpu.antt =====
-- runtimes/cpu/src/lib.rs. Log lines, metrics and unused fields are left out.
use tensorgrid.Base.{
  ℕ, ◌/◌, ◌*◌, min, max, String, Bool, true, List, [], ◌∷◌, Result, ok, err, u32, ◌==◌,
  if◌then◌else◌,
}
use tensorgrid.Types.{
  RuntimeBackend, TensorSpec, TensorHandle, ModelShardSpec, ShardHandle, StageExecution,
  StageOutput, TensorTransfer, TransferReceipt,
}
use tensorgrid.Runtime.{joined, mib, gib, total_size}

pub data CpuError : Type 0 where
  model_load_failed tensor_allocation_failed stage_execution_failed : String → CpuError
  tensor_transfer_failed unsupported_operation internal : String → CpuError

pub record CpuRuntime : Type 0 where
  pub backend : RuntimeBackend

abbrev pub new : CpuRuntime
new = record { backend = RuntimeBackend.cpu }

pub record RuntimeCapabilities : Type 0 where
  pub backend : RuntimeBackend
  pub supported_dtypes : List String
  pub supported_precisions : List String
  pub max_tensor_size : ℕ  -- u64
  pub supports_simd : Bool
  pub supports_multithreading : Bool

abbrev pub probe : CpuRuntime → RuntimeCapabilities
probe r = record {
  backend = r.backend;
  supported_dtypes = "f32" ∷ "f16" ∷ "i8" ∷ "i4" ∷ [];
  supported_precisions = "fp32" ∷ "fp16" ∷ "int8" ∷ "int4" ∷ [];
  max_tensor_size = 32 * gib;
  supports_simd = true;
  supports_multithreading = true;
}

module _ (print : ℕ → String) where
  abbrev pub load_shard : ModelShardSpec → CpuRuntime → Result CpuError (ShardHandle × ℕ)
  load_shard spec r =
      ok (record { shard_id = spec.shard_id; backend = r.backend }, u32 (spec.bytes / (50 * mib)))

  abbrev pub allocate_tensor : TensorSpec → CpuRuntime → Result CpuError TensorHandle
  allocate_tensor spec r =
      if spec.bytes == 0
      then err (tensor_allocation_failed "Tensor size cannot be zero")
      else ok
          (record { tensor_id = spec.tensor_id; device = "cpu:0"; offset = 0; size = spec.bytes })

  abbrev pub execute_stage : ℕ → StageExecution → CpuRuntime → Result CpuError (StageOutput × ℕ)
  execute_stage elapsed request r = ok (
    record {
      stage_id = request.stage_id;
      output_tensors =
          record {
            tensor_id = joined "stage_" (joined (print request.stage_id) "_output_0");
            device = "cpu:0";
            offset = 0;
            size = total_size request.input_tensors;
          }
          ∷ [];
      execution_time_ms = u32 elapsed;
    },
    min (max (u32 (total_size request.input_tensors / (100 * mib))) 1) 1000,
  )

  abbrev pub transfer_tensor :
      ℕ → TensorTransfer → CpuRuntime → Result CpuError (TransferReceipt × ℕ)
  transfer_tensor elapsed request r = ok (
    record {
      tensor_id = request.tensor_id;
      bytes_transferred = request.bytes;
      transfer_time_ms = u32 elapsed;
    },
    min (max (u32 (request.bytes / (50 * mib))) 1) 2000,
  )

  abbrev pub unload : ShardHandle → CpuRuntime → Result CpuError Unit
  unload handle r = ok tt
