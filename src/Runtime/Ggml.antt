-- ===== src/Runtime/Ggml.antt =====
-- runtimes/ggml/src/lib.rs. Log lines, metrics and unused fields are left out.
use tensorgrid.Base.{
  ℕ, ◌/◌, ◌*◌, min, max, String, Bool, true, false, Option, none, some, List, [], ◌∷◌, ◌++◌, length,
  Result, ok, err, ◌>>=◌, u32, ltb, ◌==◌, if◌then◌else◌,
}
use tensorgrid.Types.{
  RuntimeBackend, TensorSpec, TensorHandle, ModelShardSpec, ShardHandle, StageExecution,
  StageOutput, TensorTransfer, TransferReceipt,
}
use tensorgrid.Gguf.{GgufModel}
use tensorgrid.Runtime.{joined, mib, gib, total_size}

pub data GgmlError : Type 0 where
  model_load_failed tensor_allocation_failed stage_execution_failed : String → GgmlError
  tensor_transfer_failed unsupported_operation internal : String → GgmlError
  tokenizer_not_loaded : GgmlError
  tokenizer_load_failed tokenization_failed detokenization_failed : String → GgmlError

-- The tokenizers crate: a tokenizer encodes and decodes, or fails with a message.
pub record Tokenizer : Type 0 where
  pub encode : String → Result String (List ℕ)
  pub decode : List ℕ → Result String String

pub record GgmlRuntime : Type 0 where
  pub backend : RuntimeBackend
  pub loaded_models : List String
  pub tokenizer : Option Tokenizer

abbrev pub new : GgmlRuntime
new = record { backend = RuntimeBackend.ggml; loaded_models = []; tokenizer = none }

abbrev map_err {ℓ} : {A : Type ℓ} {E F : Type ℓ} → (E → F) → Result E A → Result F A
map_err f (ok a) = ok a
map_err f (err e) = err (f e)

abbrev or_not_loaded : Option Tokenizer → Result GgmlError Tokenizer
or_not_loaded none = err tokenizer_not_loaded
or_not_loaded (some t) = ok t

-- `from_file` is what the tokenizers crate makes of the file.
abbrev pub load_tokenizer : Result String Tokenizer → GgmlRuntime → Result GgmlError GgmlRuntime
load_tokenizer from_file r = do
  t ← map_err tokenizer_load_failed from_file
  ok (record r { tokenizer = some t })

abbrev pub tokenize : String → GgmlRuntime → Result GgmlError (List ℕ)
tokenize text r = do t ← or_not_loaded r.tokenizer; map_err tokenization_failed (t.encode text)

abbrev pub detokenize : List ℕ → GgmlRuntime → Result GgmlError String
detokenize tokens r = do
  t ← or_not_loaded r.tokenizer
  map_err detokenization_failed (t.decode tokens)

abbrev pub detect_gpu_support : Bool
detect_gpu_support = false

-- `parsed` is what the GGUF parser makes of the file at the path, or the message of its error.
abbrev pub load_gguf :
    String → Result String GgufModel → GgmlRuntime → Result GgmlError (GgufModel × GgmlRuntime)
load_gguf path parsed r = do
  model ← map_err model_load_failed parsed
  ok (model, record r { loaded_models = r.loaded_models ++ path ∷ [] })

pub record RuntimeMetrics : Type 0 where
  pub loaded_models : ℕ
  pub allocated_tensors : ℕ
  pub memory_used_bytes : ℕ
  pub gpu_memory_used_bytes : ℕ

abbrev pub metrics : GgmlRuntime → RuntimeMetrics
metrics r = record {
  loaded_models = length r.loaded_models;
  allocated_tensors = 0;
  memory_used_bytes = 0;
  gpu_memory_used_bytes = 0;
}

pub record RuntimeCapabilities : Type 0 where
  pub backend : RuntimeBackend
  pub supported_dtypes : List String
  pub max_tensor_size : ℕ  -- u64
  pub supports_gpu : Bool
  pub supports_cpu : Bool
  pub supports_multi_gpu : Bool

abbrev pub probe : GgmlRuntime → RuntimeCapabilities
probe r = record {
  backend = r.backend;
  supported_dtypes =
      "f32" ∷ "f16" ∷ "q4_0" ∷ "q4_1" ∷ "q5_0" ∷ "q5_1" ∷ "q8_0" ∷ "q8_1" ∷ "q4_k_m" ∷ "q4_k_s"
      ∷ "q5_k_m" ∷ "q5_k_s" ∷ "q6_k" ∷ "q8_k" ∷ [];
  max_tensor_size = 16 * gib;
  supports_gpu = detect_gpu_support;
  supports_cpu = true;
  supports_multi_gpu = false;
}

module _ (print : ℕ → String) where
  abbrev pub load_shard : ModelShardSpec → GgmlRuntime → Result GgmlError (ShardHandle × ℕ)
  load_shard spec r =
      ok (record { shard_id = spec.shard_id; backend = r.backend }, u32 (spec.bytes / (10 * mib)))

  abbrev pub allocate_tensor : TensorSpec → GgmlRuntime → Result GgmlError TensorHandle
  allocate_tensor spec r =
      if spec.bytes == 0
      then err (tensor_allocation_failed "Tensor size cannot be zero")
      else if ltb (16 * gib) spec.bytes
      then err (
          tensor_allocation_failed (
            joined "Tensor size "
              (joined (print spec.bytes) (joined " exceeds maximum " (print (16 * gib))))))
      else ok (record {
        tensor_id = spec.tensor_id;
        device =
            if ltb (512 * mib) spec.bytes
            then "cpu:0"
            else if detect_gpu_support
            then "cuda:0"
            else "cpu:0";
        offset = 0;
        size = spec.bytes;
      })

  abbrev pub execute_stage : ℕ → StageExecution → GgmlRuntime → Result GgmlError (StageOutput × ℕ)
  execute_stage elapsed request r = ok (
    record {
      stage_id = request.stage_id;
      output_tensors =
          record {
            tensor_id = joined "stage_" (joined (print request.stage_id) "_output_0");
            device = "cpu:0";
            offset = 0;
            size = total_size request.input_tensors;
          }
          ∷ [];
      execution_time_ms = u32 elapsed;
    },
    min (max (u32 (total_size request.input_tensors / (100 * mib))) 5) 1000,
  )

  abbrev pub transfer_tensor :
      ℕ → TensorTransfer → GgmlRuntime → Result GgmlError (TransferReceipt × ℕ)
  transfer_tensor elapsed request r = ok (
    record {
      tensor_id = request.tensor_id;
      bytes_transferred = request.bytes;
      transfer_time_ms = u32 elapsed;
    },
    min (max (u32 (request.bytes / (50 * mib))) 1) 5000,
  )

  abbrev pub unload : ShardHandle → GgmlRuntime → Result GgmlError Unit
  unload handle r = ok tt
