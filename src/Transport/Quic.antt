-- ===== src/Transport/Quic.antt =====
-- transports/quic/src/lib.rs: the frames of tensors and the server's connections. Messages that other
-- libraries give an error are left out.
mod Frames
mod Tests
use tensorgrid.Base.{
  ℕ, ◌+◌, ◌<◌, ◌^◌, ◌≡◌, String, Bool, true, false, Option, none, some, List, [], ◌∷◌, ◌++◌, length,
  take, drop, Bytes, to_be_bytes, from_be_bytes, Result, ok, err, ◌>>=◌, ltb, u32, if◌then◌else◌,
  id_key,
}
use tensorgrid.HashMap.{HashMap, get, insert}
use tensorgrid.Types.{NodeId, TensorId}

pub data QuicError : Type 0 where
  config_error bind_error connection_error stream_error send_error receive_error : QuicError
  accept_failed parse_error internal : String → QuicError
  node_not_found : NodeId → QuicError

-- serde_json: the object with a tensor's identifier and size as text, and what is read of a text.
pub record Json : Type 1 where
  pub Value : Type 0
  pub to_bytes : TensorId → ℕ → Bytes
  pub from_slice : Bytes → Option Value
  pub tensor_id_of : Value → Option TensorId
  pub size_of : Value → Option ℕ

-- serde_json's documentation: the object that it prints of a tensor it reads back.
pub record IsJson (j : Json) (t : TensorId) (n : ℕ) : Type 0 where
  pub value : j.Value
  pub from_slice_ok : j.from_slice (j.to_bytes t n) ≡ some value
  pub tensor_id_ok : j.tensor_id_of value ≡ some t
  pub size_ok : j.size_of value ≡ some n

-- What quinn does with a stream: whether it opens, takes each of the three writes, and is finished.
pub record Wire : Type 0 where
  pub opens : Bool
  pub takes_length : Bool
  pub takes_metadata : Bool
  pub takes_data : Bool
  pub finishes : Bool

abbrev pub or_else : {A : Type 0} → QuicError → Option A → Result QuicError A
or_else e none = err e
or_else e (some a) = ok a

abbrev pub require : QuicError → Bool → Result QuicError Unit
require e b = if b then ok tt else err e

-- `read_exact` of n bytes from what the peer has sent.
abbrev pub read_exact : ℕ → Bytes → Result QuicError (Bytes × Bytes)
read_exact n bs = if ltb (length bs) n then err receive_error else ok (take n bs, drop n bs)

module _ (j : Json) where
  -- The bytes that a client's `send_tensor` puts on the stream; the server's does the same.
  abbrev pub send_frame : Wire → TensorId → Bytes → Result QuicError Bytes
  send_frame w tensor_id payload = do
    _ ← require stream_error w.opens
    let metadata = j.to_bytes tensor_id (length payload)
    let metadata_len = to_be_bytes 4 (u32 (length metadata))
    _ ← require send_error w.takes_length
    _ ← require send_error w.takes_metadata
    _ ← require send_error w.takes_data
    _ ← require send_error w.finishes
    ok (metadata_len ++ (metadata ++ payload))

  abbrev pub receive_tensor : Bool → Bytes → Result QuicError (TensorId × Bytes)
  receive_tensor accepts bs = do
    _ ← require stream_error accepts
    len_bytes ← read_exact 4 bs
    metadata_bytes ← read_exact (from_be_bytes 0 len_bytes.0) len_bytes.1
    metadata ← or_else (parse_error "") (j.from_slice metadata_bytes.0)
    tensor_id ← or_else (parse_error "Missing tensor_id") (j.tensor_id_of metadata)
    size ← or_else (parse_error "Missing size") (j.size_of metadata)
    payload ← read_exact size metadata_bytes.1
    ok (tensor_id, payload.0)

-- A connection is known by a number.
pub record QuicServer : Type 0 where
  pub active_connections : HashMap NodeId ℕ

-- What quinn gives to an `accept`, and the node's new random identifier.
pub record Accepting : Type 0 where
  pub incoming : Bool
  pub connection : Option ℕ
  pub node_id : NodeId
  pub opens : Bool

abbrev pub accept : Accepting → QuicServer → Result QuicError ((NodeId × ℕ) × QuicServer)
accept a s = do
  _ ← require (accept_failed "No incoming connection") a.incoming
  conn ← or_else connection_error a.connection
  _ ← require stream_error a.opens
  ok ((a.node_id, conn), record { active_connections = insert a.node_id conn s.active_connections })

abbrev pub send_tensor :
    Json → Wire → NodeId → TensorId → Bytes → QuicServer → Result QuicError Bytes
send_tensor j w node_id tensor_id payload s = do
  conn ← or_else (node_not_found node_id) (get node_id s.active_connections)
  send_frame j w tensor_id payload

pub record ServerStats : Type 0 where
  pub active_connections : ℕ

abbrev pub get_stats : QuicServer → ServerStats
get_stats s = record { active_connections = length s.active_connections }
