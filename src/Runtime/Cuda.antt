-- ===== src/Runtime/Cuda.antt =====
-- runtimes/cuda/src/lib.rs. Log lines, metrics and unused fields are left out.
use text.Mathlib.Text.{starts_with}
use tensorgrid.Base.{
  ℕ, ◌/◌, ◌*◌, min, max, String, Bool, true, false, Option, none, some, List, [], ◌∷◌, Result, ok,
  err, ◌>>=◌, u32, ltb, ◌==◌, if◌then◌else◌,
}
use tensorgrid.Types.{
  RuntimeBackend, TensorSpec, TensorHandle, ModelShardSpec, ShardHandle, StageExecution,
  StageOutput, TensorTransfer, TransferReceipt,
}
use tensorgrid.Runtime.{joined, mib, gib, total_size}

pub data CudaError : Type 0 where
  device_not_initialized : CudaError
  driver_error model_load_failed tensor_allocation_failed stage_execution_failed :
      String → CudaError
  tensor_transfer_failed unsupported_operation internal : String → CudaError

-- A device that the driver opened, by a number.
pub record CudaRuntime : Type 0 where
  pub backend : RuntimeBackend
  pub device : Option ℕ
  pub device_id : ℕ

-- `device` is what the driver answers; an error leaves none.
abbrev pub new : ℕ → Option ℕ → Result CudaError CudaRuntime
new device_id device =
    ok (record { backend = RuntimeBackend.cuda; device = device; device_id = device_id })

abbrev pub is_available : CudaRuntime → Bool
is_available r = elim r.device [ none ↦ false | some d ↦ true ]

pub record RuntimeCapabilities : Type 0 where
  pub backend : RuntimeBackend
  pub supported_dtypes : List String
  pub supported_precisions : List String
  pub max_tensor_size : ℕ  -- u64
  pub supports_flash_attention : Bool
  pub supports_tensor_cores : Bool

abbrev pub probe : CudaRuntime → RuntimeCapabilities
probe r = record {
  backend = r.backend;
  supported_dtypes = "f32" ∷ "f16" ∷ "bf16" ∷ "i8" ∷ "i4" ∷ [];
  supported_precisions = "fp32" ∷ "fp16" ∷ "bf16" ∷ "int8" ∷ "int4" ∷ [];
  max_tensor_size = 16 * gib;
  supports_flash_attention = true;
  supports_tensor_cores = true;
}

pub record DeviceInfo : Type 0 where
  pub name : String
  pub compute_capability : String
  pub total_memory : ℕ  -- u64
  pub multiprocessor_count : ℕ
  pub max_threads_per_block : ℕ
  pub max_threads_per_multiprocessor : ℕ
  pub warp_size : ℕ

module _ (print : ℕ → String) where
  abbrev pub get_device_info : CudaRuntime → Result CudaError DeviceInfo
  get_device_info r =
      if is_available r
      then ok (record {
        name = joined "NVIDIA GPU " (print r.device_id);
        compute_capability = "8.0";
        total_memory = 16 * gib;
        multiprocessor_count = 28;
        max_threads_per_block = 1024;
        max_threads_per_multiprocessor = 2048;
        warp_size = 32;
      })
      else err device_not_initialized

  abbrev device_name : CudaRuntime → String
  device_name r = joined "cuda:" (print r.device_id)

  abbrev pub load_shard : ModelShardSpec → CudaRuntime → Result CudaError (ShardHandle × ℕ)
  load_shard spec r =
      if is_available r
      then ok
          (record { shard_id = spec.shard_id; backend = r.backend }, u32 (spec.bytes / (100 * mib)))
      else err device_not_initialized

  abbrev pub allocate_tensor : TensorSpec → CudaRuntime → Result CudaError TensorHandle
  allocate_tensor spec r =
      if is_available r
      then (if spec.bytes == 0
          then err (tensor_allocation_failed "Tensor size cannot be zero")
          else (get_device_info r >>= λ device_info.
              if ltb device_info.total_memory spec.bytes
              then err (
                  tensor_allocation_failed (
                    joined "Tensor size " (
                      joined (print spec.bytes)
                        (joined " exceeds GPU memory " (print device_info.total_memory)))))
              else ok (record {
                tensor_id = spec.tensor_id;
                device = (device_name r);
                offset = 0;
                size = spec.bytes;
              })))
      else err device_not_initialized

  abbrev pub execute_stage : ℕ → StageExecution → CudaRuntime → Result CudaError (StageOutput × ℕ)
  execute_stage elapsed request r =
      if is_available r
      then ok (
        record {
          stage_id = request.stage_id;
          output_tensors =
              record {
                tensor_id = joined "stage_" (joined (print request.stage_id) "_output_0");
                device = (device_name r);
                offset = 0;
                size = total_size request.input_tensors;
              }
              ∷ [];
          execution_time_ms = u32 elapsed;
        },
        min (max (u32 (total_size request.input_tensors / (500 * mib))) 1) 500,
      )
      else err device_not_initialized

  abbrev bandwidth_mbps : TensorTransfer → ℕ
  bandwidth_mbps request =
      if starts_with request.from_device "cuda"
      then (if starts_with request.to_device "cuda" then 1000 else 50)
      else 50

  abbrev pub transfer_tensor :
      ℕ → TensorTransfer → CudaRuntime → Result CudaError (TransferReceipt × ℕ)
  transfer_tensor elapsed request r = ok (
    record {
      tensor_id = request.tensor_id;
      bytes_transferred = request.bytes;
      transfer_time_ms = u32 elapsed;
    },
    min (max (u32 (request.bytes / (bandwidth_mbps request * mib))) 1) 2000,
  )

  abbrev pub unload : ShardHandle → CudaRuntime → Result CudaError Unit
  unload handle r = ok tt
