-- ===== src/Runtime/Mlx.antt =====
-- runtimes/mlx/src/lib.rs. Log lines, metrics and unused fields are left out.
use tensorgrid.Base.{
  ℕ, ◌/◌, ◌*◌, min, max, String, Bool, true, false, List, [], ◌∷◌, Result, ok, err, ◌>>=◌, u32, ltb,
  ◌==◌, if◌then◌else◌,
}
use tensorgrid.Types.{
  RuntimeBackend, TensorSpec, TensorHandle, ModelShardSpec, ShardHandle, StageExecution,
  StageOutput, TensorTransfer, TransferReceipt,
}
use tensorgrid.Runtime.{joined, mib, gib, total_size}

pub data MlxError : Type 0 where
  device_not_available : MlxError
  metal_error model_load_failed tensor_allocation_failed stage_execution_failed : String → MlxError
  tensor_transfer_failed unsupported_operation internal : String → MlxError

pub record MlxRuntime : Type 0 where
  pub backend : RuntimeBackend
  pub device_available : Bool

abbrev pub check_mlx_availability : Bool
check_mlx_availability = false

abbrev pub new : Result MlxError MlxRuntime
new = ok (record { backend = RuntimeBackend.mlx; device_available = check_mlx_availability })

abbrev pub is_available : MlxRuntime → Bool
is_available r = r.device_available

pub record RuntimeCapabilities : Type 0 where
  pub backend : RuntimeBackend
  pub supported_dtypes : List String
  pub supported_precisions : List String
  pub max_tensor_size : ℕ  -- u64
  pub supports_unified_memory : Bool
  pub supports_flash_attention : Bool

abbrev pub probe : MlxRuntime → RuntimeCapabilities
probe r = record {
  backend = r.backend;
  supported_dtypes = "f32" ∷ "f16" ∷ "bf16" ∷ "i8" ∷ "i4" ∷ [];
  supported_precisions = "fp32" ∷ "fp16" ∷ "bf16" ∷ "int8" ∷ "int4" ∷ [];
  max_tensor_size = 16 * gib;
  supports_unified_memory = true;
  supports_flash_attention = true;
}

pub record DeviceInfo : Type 0 where
  pub name : String
  pub compute_capability : String
  pub total_memory : ℕ  -- u64
  pub unified_memory : Bool
  pub max_threads_per_block : ℕ
  pub supports_fp16 : Bool
  pub supports_bf16 : Bool

module _ (print : ℕ → String) where
  abbrev pub get_device_info : MlxRuntime → Result MlxError DeviceInfo
  get_device_info r =
      if is_available r
      then ok (record {
        name = "Apple Silicon GPU";
        compute_capability = "metal";
        total_memory = 16 * gib;
        unified_memory = true;
        max_threads_per_block = 1024;
        supports_fp16 = true;
        supports_bf16 = true;
      })
      else err device_not_available

  abbrev pub load_shard : ModelShardSpec → MlxRuntime → Result MlxError (ShardHandle × ℕ)
  load_shard spec r =
      if is_available r
      then ok
          (record { shard_id = spec.shard_id; backend = r.backend }, u32 (spec.bytes / (200 * mib)))
      else err device_not_available

  abbrev pub allocate_tensor : TensorSpec → MlxRuntime → Result MlxError TensorHandle
  allocate_tensor spec r =
      if is_available r
      then (if spec.bytes == 0
          then err (tensor_allocation_failed "Tensor size cannot be zero")
          else (get_device_info r >>= λ device_info.
              if ltb device_info.total_memory spec.bytes
              then err (
                  tensor_allocation_failed (
                    joined "Tensor size " (
                      joined (print spec.bytes)
                        (joined " exceeds unified memory " (print device_info.total_memory)))))
              else ok (record {
                tensor_id = spec.tensor_id;
                device = "mlx:gpu";
                offset = 0;
                size = spec.bytes;
              })))
      else err device_not_available

  abbrev pub execute_stage : ℕ → StageExecution → MlxRuntime → Result MlxError (StageOutput × ℕ)
  execute_stage elapsed request r =
      if is_available r
      then ok (
        record {
          stage_id = request.stage_id;
          output_tensors =
              record {
                tensor_id = joined "stage_" (joined (print request.stage_id) "_output_0");
                device = "mlx:gpu";
                offset = 0;
                size = total_size request.input_tensors;
              }
              ∷ [];
          execution_time_ms = u32 elapsed;
        },
        min (max (u32 (total_size request.input_tensors / (600 * mib))) 1) 500,
      )
      else err device_not_available

  abbrev pub transfer_tensor :
      ℕ → TensorTransfer → MlxRuntime → Result MlxError (TransferReceipt × ℕ)
  transfer_tensor elapsed request r = ok (
    record {
      tensor_id = request.tensor_id;
      bytes_transferred = request.bytes;
      transfer_time_ms = u32 elapsed;
    },
    1,
  )

  abbrev pub unload : ShardHandle → MlxRuntime → Result MlxError Unit
  unload handle r = ok tt
