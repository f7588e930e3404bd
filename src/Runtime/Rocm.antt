-- ===== src/Runtime/Rocm.antt =====
-- runtimes/rocm/src/lib.rs. Log lines, metrics and unused fields are left out.
use text.Mathlib.Text.{starts_with}
use tensorgrid.Base.{
  ℕ, ◌/◌, ◌*◌, min, max, String, Bool, true, false, List, [], ◌∷◌, Result, ok, err, ◌>>=◌, u32, ltb,
  ◌==◌, if◌then◌else◌,
}
use tensorgrid.Types.{
  RuntimeBackend, TensorSpec, TensorHandle, ModelShardSpec, ShardHandle, StageExecution,
  StageOutput, TensorTransfer, TransferReceipt,
}
use tensorgrid.Runtime.{joined, mib, gib, total_size}

pub data RocmError : Type 0 where
  device_not_available : RocmError
  hip_error model_load_failed tensor_allocation_failed stage_execution_failed : String → RocmError
  tensor_transfer_failed unsupported_operation internal : String → RocmError

pub record RocmRuntime : Type 0 where
  pub backend : RuntimeBackend
  pub device_available : Bool
  pub device_id : ℕ

abbrev pub check_rocm_availability : Bool
check_rocm_availability = false

abbrev pub new : ℕ → Result RocmError RocmRuntime
new device_id = ok (record {
  backend = RuntimeBackend.rocm;
  device_available = check_rocm_availability;
  device_id = device_id;
})

abbrev pub is_available : RocmRuntime → Bool
is_available r = r.device_available

pub record RuntimeCapabilities : Type 0 where
  pub backend : RuntimeBackend
  pub supported_dtypes : List String
  pub supported_precisions : List String
  pub max_tensor_size : ℕ  -- u64
  pub supports_flash_attention : Bool
  pub supports_tensor_cores : Bool

abbrev pub probe : RocmRuntime → RuntimeCapabilities
probe r = record {
  backend = r.backend;
  supported_dtypes = "f32" ∷ "f16" ∷ "bf16" ∷ "i8" ∷ "i4" ∷ [];
  supported_precisions = "fp32" ∷ "fp16" ∷ "bf16" ∷ "int8" ∷ "int4" ∷ [];
  max_tensor_size = 16 * gib;
  supports_flash_attention = true;
  supports_tensor_cores = false;
}

pub record DeviceInfo : Type 0 where
  pub name : String
  pub compute_capability : String
  pub total_memory : ℕ  -- u64
  pub multiprocessor_count : ℕ
  pub max_threads_per_block : ℕ
  pub max_threads_per_multiprocessor : ℕ
  pub warp_size : ℕ

module _ (print : ℕ → String) where
  abbrev pub get_device_info : RocmRuntime → Result RocmError DeviceInfo
  get_device_info r =
      if is_available r
      then ok (record {
        name = "AMD GPU";
        compute_capability = "rocm";
        total_memory = 16 * gib;
        multiprocessor_count = 40;
        max_threads_per_block = 1024;
        max_threads_per_multiprocessor = 2560;
        warp_size = 64;
      })
      else err device_not_available

  abbrev device_name : RocmRuntime → String
  device_name r = joined "rocm:" (print r.device_id)

  abbrev pub load_shard : ModelShardSpec → RocmRuntime → Result RocmError (ShardHandle × ℕ)
  load_shard spec r =
      if is_available r
      then ok
          (record { shard_id = spec.shard_id; backend = r.backend }, u32 (spec.bytes / (100 * mib)))
      else err device_not_available

  abbrev pub allocate_tensor : TensorSpec → RocmRuntime → Result RocmError TensorHandle
  allocate_tensor spec r =
      if is_available r
      then (if spec.bytes == 0
          then err (tensor_allocation_failed "Tensor size cannot be zero")
          else (get_device_info r >>= λ device_info.
              if ltb device_info.total_memory spec.bytes
              then err (
                  tensor_allocation_failed (
                    joined "Tensor size " (
                      joined (print spec.bytes)
                        (joined " exceeds GPU memory " (print device_info.total_memory)))))
              else ok (record {
                tensor_id = spec.tensor_id;
                device = (device_name r);
                offset = 0;
                size = spec.bytes;
              })))
      else err device_not_available

  abbrev pub execute_stage : ℕ → StageExecution → RocmRuntime → Result RocmError (StageOutput × ℕ)
  execute_stage elapsed request r =
      if is_available r
      then ok (
        record {
          stage_id = request.stage_id;
          output_tensors =
              record {
                tensor_id = joined "stage_" (joined (print request.stage_id) "_output_0");
                device = (device_name r);
                offset = 0;
                size = total_size request.input_tensors;
              }
              ∷ [];
          execution_time_ms = u32 elapsed;
        },
        min (max (u32 (total_size request.input_tensors / (400 * mib))) 1) 500,
      )
      else err device_not_available

  abbrev bandwidth_mbps : TensorTransfer → ℕ
  bandwidth_mbps request =
      if starts_with request.from_device "rocm"
      then (if starts_with request.to_device "rocm" then 800 else 50)
      else 50

  abbrev pub transfer_tensor :
      ℕ → TensorTransfer → RocmRuntime → Result RocmError (TransferReceipt × ℕ)
  transfer_tensor elapsed request r = ok (
    record {
      tensor_id = request.tensor_id;
      bytes_transferred = request.bytes;
      transfer_time_ms = u32 elapsed;
    },
    min (max (u32 (request.bytes / (bandwidth_mbps request * mib))) 1) 2000,
  )

  abbrev pub unload : ShardHandle → RocmRuntime → Result RocmError Unit
  unload handle r = ok tt
