-- ===== src/Transport/Rdma.antt =====
-- transports/rdma/src/lib.rs: the server's and the client's tables. Transfers are simulated: they move no
-- data. Random keys and identifiers are arguments.
mod Tables
use tensorgrid.Base.{
  ◌>>=◌, ℕ, zero, suc, ◌/◌, String, Option, none, some, List, [], ◌∷◌, length, Bytes, Result, ok,
  err, id_key, name_key,
}
use tensorgrid.HashMap.{HashMap, insert}
use tensorgrid.Types.{NodeId, TensorId}

pub data ConnectionState : Type 0 where
  idle connecting connected disconnecting disconnected : ConnectionState

pub record RdmaConnection : Type 0 where
  pub node_id : NodeId
  pub remote_addr : String
  pub qp_num : ℕ
  pub state : ConnectionState

pub record MemoryRegion : Type 0 where
  pub id : String
  pub addr : ℕ
  pub size : ℕ
  pub lkey : ℕ
  pub rkey : ℕ

pub data RdmaError : Type 0 where
  device_not_found not_connected : RdmaError
  connection_failed memory_registration_failed transfer_failed : String → RdmaError
  work_request_failed completion_error internal : String → RdmaError
  node_not_found : NodeId → RdmaError

-- The keys that `generate_lkey` and `generate_rkey` draw.
pub record Keys : Type 0 where
  pub generate_lkey : ℕ
  pub generate_rkey : ℕ

abbrev new_region : Keys → String → ℕ → ℕ → MemoryRegion
new_region k id addr size = record {
  id = id;
  addr = addr;
  size = size;
  lkey = k.generate_lkey;
  rkey = k.generate_rkey;
}

pub record RdmaServer : Type 0 where
  pub bind_addr : String
  pub registered_memory_regions : HashMap String MemoryRegion
  pub active_connections : HashMap NodeId RdmaConnection

abbrev pub new_server : String → RdmaServer
new_server bind_addr = record {
  bind_addr = bind_addr;
  registered_memory_regions = [];
  active_connections = [];
}

abbrev pub register_memory_region : Keys → String → ℕ → ℕ → RdmaServer → RdmaServer
register_memory_region k id addr size s = record s {
  registered_memory_regions = insert id (new_region k id addr size) s.registered_memory_regions;
}

-- The new node's random identifier and queue pair number.
abbrev pub accept : NodeId → ℕ → RdmaServer → (NodeId × RdmaConnection) × RdmaServer
accept node_id qp_num s =
    let connection : RdmaConnection = record {
      node_id = node_id;
      remote_addr = s.bind_addr;
      qp_num = qp_num;
      state = connected;
    } in
    (
      (node_id, connection),
      record s { active_connections = insert node_id connection s.active_connections },
    )

-- The microseconds that the server's `send_tensor` sleeps. It looks at neither the node nor the tensor.
abbrev pub send_tensor : NodeId → TensorId → Bytes → RdmaServer → Result RdmaError ℕ
send_tensor node_id tensor_id payload s = ok (length payload / 1000)

pub record ServerStats : Type 0 where
  pub active_connections : ℕ
  pub registered_memory_regions : ℕ

abbrev pub get_stats : RdmaServer → ServerStats
get_stats s = record {
  active_connections = length s.active_connections;
  registered_memory_regions = length s.registered_memory_regions;
}

pub record RdmaClient : Type 0 where
  pub server_addr : String
  pub connection : Option RdmaConnection
  pub registered_memory_regions : HashMap String MemoryRegion

abbrev pub new_client : String → RdmaClient
new_client server_addr = record {
  server_addr = server_addr;
  connection = none;
  registered_memory_regions = [];
}

abbrev pub connect : NodeId → ℕ → RdmaClient → RdmaConnection × RdmaClient
connect node_id qp_num c =
    let connection : RdmaConnection = record {
      node_id = node_id;
      remote_addr = c.server_addr;
      qp_num = qp_num;
      state = connected;
    } in
    (connection, record c { connection = some connection })

abbrev pub register_client_region : Keys → String → ℕ → ℕ → RdmaClient → RdmaClient
register_client_region k id addr size c = record c {
  registered_memory_regions = insert id (new_region k id addr size) c.registered_memory_regions;
}

abbrev pub or_not_connected : Option RdmaConnection → Result RdmaError RdmaConnection
or_not_connected none = err not_connected
or_not_connected (some c) = ok c

abbrev pub zeros : ℕ → Bytes
zeros zero = []
zeros (suc n) = 0 ∷ zeros n

-- The bytes, and the microseconds that the call sleeps.
abbrev pub receive_tensor : TensorId → ℕ → RdmaClient → Result RdmaError (Bytes × ℕ)
receive_tensor tensor_id size c = do
  conn ← or_not_connected c.connection
  ok (zeros size, size / 1000)

abbrev pub send_client_tensor : TensorId → Bytes → RdmaClient → Result RdmaError ℕ
send_client_tensor tensor_id payload c = do
  conn ← or_not_connected c.connection
  ok (length payload / 1000)
