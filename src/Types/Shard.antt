-- ===== src/Types/Shard.antt =====
-- crates/cluster-types: what the runtimes are asked and what they answer.
use tensorgrid.Base.{ℕ, String, List}
use tensorgrid.Types.Hardware.{RuntimeBackend}
use tensorgrid.Types.Plan.{ModelId, TensorId}

pub record ModelShardSpec : Type 0 where
  pub model_id : ModelId
  pub shard_id : ℕ  -- u32
  pub layers : List ℕ
  pub format : String
  pub quantization : String
  pub bytes : ℕ  -- u64
  pub checksum : String

pub record TensorSpec : Type 0 where
  pub tensor_id : TensorId
  pub shape : List ℕ
  pub dtype : String
  pub bytes : ℕ  -- u64

pub record TensorHandle : Type 0 where
  pub tensor_id : TensorId
  pub device : String
  pub offset : ℕ  -- u64
  pub size : ℕ  -- u64

pub record ShardHandle : Type 0 where
  pub shard_id : ℕ  -- u32
  pub backend : RuntimeBackend

pub record StageExecution : Type 0 where
  pub stage_id : ℕ  -- u32
  pub input_tensors : List TensorHandle

pub record StageOutput : Type 0 where
  pub stage_id : ℕ  -- u32
  pub output_tensors : List TensorHandle
  pub execution_time_ms : ℕ  -- u32

pub record TensorTransfer : Type 0 where
  pub tensor_id : TensorId
  pub from_device : String
  pub to_device : String
  pub bytes : ℕ  -- u64

pub record TransferReceipt : Type 0 where
  pub tensor_id : TensorId
  pub bytes_transferred : ℕ  -- u64
  pub transfer_time_ms : ℕ  -- u32
