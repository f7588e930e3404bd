-- ===== src/Transport/Tcp.antt =====
-- transports/tcp/src/lib.rs: headers, the receiving of a tensor, and both ends of a connection.
mod Headers
mod Receiving
mod Connections
mod Tests
use tensorgrid.Base.{
  from_be_bytes, to_be_bytes, and_then, ◌>>=◌, ◌*◌, ℕ, zero, suc, ◌+◌, ◌-◌, ◌≡◌, ◌<◌, min, String,
  Bool, true, false, ◌&&◌, Option, none, some, List, [], ◌∷◌, ◌++◌, length, take, drop, Bytes,
  from_le_bytes, to_le_bytes, Result, ok, err, ltb, leb, ◌==◌, if◌then◌else◌,
}

pub record TcpConfig : Type 0 where
  pub bind_address : String
  pub max_connections : ℕ
  pub buffer_size : ℕ
  pub timeout_secs : ℕ

abbrev pub default_config : TcpConfig
default_config = record {
  bind_address = "0.0.0.0:0";
  max_connections = 100;
  buffer_size = 64 * 1024;
  timeout_secs = 30;
}

pub data TcpError : Type 0 where
  bind_failed connect_failed transfer_failed internal : String → TcpError
  connection_closed io : TcpError
  invalid_message : ℕ → TcpError

pub data MessageType : Type 0 where
  tensor_transfer ping_message ack_message : MessageType

abbrev pub from_u8 : ℕ → Result TcpError MessageType
from_u8 n =
    if n == 0
    then ok tensor_transfer
    else if n == 1
    then ok ping_message
    else if n == 2
    then ok ack_message
    else err (invalid_message n)

abbrev pub as_u8 : MessageType → ℕ
as_u8 tensor_transfer = 0
as_u8 ping_message = 1
as_u8 ack_message = 2

-- A text is its UTF-8 bytes.
pub record MessageHeader : Type 0 where
  pub message_type : MessageType
  pub tensor_id : Bytes
  pub payload_length : ℕ

-- What a call comes to: it returns, or it panics.
pub data Run (A : Type 0) : Type 0 where
  returned : Result TcpError A → Run A
  panicked : Run A

-- `buf[from..to].copy_from_slice(src)`: the range lies in the buffer and is as long as the source, or the
-- program panics.
abbrev pub copy_from_slice : ℕ → ℕ → Bytes → Bytes → Option Bytes
copy_from_slice from to src buf =
    if leb to (length buf) && (length src + from == to)
    then some (take from buf ++ (src ++ drop to buf))
    else none

-- `trim_end_matches` of the zero character.
abbrev pub trim_zeros : Bytes → Bytes
trim_zeros [] = []
trim_zeros (b ∷ bs) = elim (trim_zeros bs) [
  | [] ↦ if b == 0 then [] else b ∷ []
  | c ∷ cs ↦ b ∷ c ∷ cs
]

-- What the two ends need of a connection: the bytes that arrive for a header, what each read of the payload
-- finds (`none` is an I/O error, and the end of the list a closed connection), and whether writing works.
pub record TcpStream : Type 0 where
  pub header_bytes : Bytes
  pub arrivals : List (Option ℕ)
  pub writable : Bool

abbrev pub write_all : TcpStream → Bytes → Result TcpError Bytes
write_all s bytes = if s.writable then ok bytes else err io

-- `read_exact` of a header's 24 bytes.
abbrev pub read_24 : TcpStream → Result TcpError Bytes
read_24 s = if ltb (length s.header_bytes) 24 then err io else ok (take 24 s.header_bytes)

abbrev pub zeros : ℕ → Bytes
zeros zero = []
zeros (suc n) = 0 ∷ zeros n

-- The bytes of `write_header`, which both ends have: none is a panic.
abbrev pub header_buf : MessageHeader → Option Bytes
header_buf h =
    let id = take 16 h.tensor_id in
    and_then (copy_from_slice 17 25 (take 7 (to_be_bytes 8 h.payload_length)))
      (and_then (copy_from_slice 1 (1 + length id) id) (some (as_u8 h.message_type ∷ zeros 23)))

abbrev pub write_header : TcpStream → MessageHeader → Run Bytes
write_header s h = elim (header_buf h) [
  | none ↦ panicked
  | some bytes ↦ returned (write_all s bytes)
]

-- `buf[0]` of a buffer that is not empty.
abbrev head_or_zero : Bytes → ℕ
head_or_zero [] = 0
head_or_zero (b ∷ bs) = b

-- `String::from_utf8_lossy` is `lossy`.
module _ (lossy : Bytes → Bytes) where
  abbrev pub read_header : TcpStream → Result TcpError MessageHeader
  read_header s = do
    buf ← read_24 s
    t ← from_u8 (head_or_zero buf)
    ok (record {
      message_type = t;
      tensor_id = trim_zeros (lossy (take 16 (drop 1 buf)));
      payload_length = from_be_bytes 0 (take 7 (drop 17 buf) ++ 0 ∷ []);
    })

-- The loop of `handle_tensor_transfer`, by reads: what it has received in all.
unfoldable pub receive : ℕ → ℕ → ℕ → List (Option ℕ) → Result TcpError ℕ
receive buffer payload total [] = if ltb total payload then err connection_closed else ok total
receive buffer payload total (none ∷ more) = if ltb total payload then err io else ok total
receive buffer payload total (some a ∷ more) =
    let n = min (min buffer (payload - total)) a in
    let rest = receive buffer payload (total + n) more in
    if ltb total payload then (if n == 0 then err connection_closed else rest) else ok total

abbrev pub send_ack : TcpStream → Bool → Result TcpError Bytes
send_ack s success = write_all s ((if success then 1 else 0) ∷ [])

-- What a handler writes to the peer, where it comes to an end.
abbrev pub handle_tensor_transfer : TcpConfig → TcpStream → MessageHeader → Result TcpError Bytes
handle_tensor_transfer c s h = do
  received ← receive c.buffer_size h.payload_length 0 s.arrivals
  send_ack s true

abbrev pub handle_ping : TcpStream → Run Bytes
handle_ping s =
    write_header s (record { message_type = ack_message; tensor_id = []; payload_length = 0 })

abbrev pub handle_message : TcpConfig → TcpStream → MessageHeader → Run Bytes
handle_message c s h = elim h.message_type [
  | tensor_transfer ↦ returned (handle_tensor_transfer c s h)
  | ping_message ↦ handle_ping s
  | ack_message ↦ returned (ok [])
]

-- `handle_connection` between its two changes of the connection count.
abbrev pub handle_connection : (Bytes → Bytes) → TcpConfig → TcpStream → Run Bytes
handle_connection lossy c s = elim (read_header lossy s) [
  | err e ↦ returned (err e)
  | ok h ↦ handle_message c s h
]

pub record TcpTransport : Type 0 where
  pub config : TcpConfig
  pub active_connections : ℕ

abbrev pub new : TcpConfig → TcpTransport
new c = record { config = c; active_connections = 0 }

-- The two changes of the count. The second is reached by a handler that succeeds.
abbrev pub begin_connection : TcpTransport → TcpTransport
begin_connection t = record t { active_connections = t.active_connections + 1 }

abbrev pub end_connection : Run Bytes → TcpTransport → TcpTransport
end_connection (returned (ok written)) t = record t {
  active_connections = t.active_connections - 1;
}
end_connection (returned (err e)) t = t
end_connection panicked t = t

pub record TransportStats : Type 0 where
  pub active_connections : ℕ
  pub max_connections : ℕ

abbrev pub get_stats : TcpTransport → TransportStats
get_stats t = record {
  active_connections = t.active_connections;
  max_connections = t.config.max_connections;
}

-- A client's call: `reply` is what the server sends back.
abbrev pub then_run : {A B : Type 0} → Run A → (A → Run B) → Run B
then_run (returned (ok a)) f = f a
then_run (returned (err e)) f = returned (err e)
then_run panicked f = panicked

abbrev pub check_ack : Bytes → Result TcpError Unit
check_ack [] = err io
check_ack (b ∷ bs) = if b == 1 then ok tt else err (transfer_failed "Remote acknowledged failure")

abbrev pub send_tensor : TcpStream → Bytes → Bytes → Bytes → Run Unit
send_tensor s tensor_id payload reply =
    let h : MessageHeader = record {
      message_type = tensor_transfer;
      tensor_id = tensor_id;
      payload_length = length payload;
    } in
    then_run (write_header s h)
      (λ header. then_run (returned (write_all s payload)) (λ sent. returned (check_ack reply)))

abbrev pub ping : TcpStream → Run Unit
ping s =
    let h : MessageHeader = record {
      message_type = ping_message;
      tensor_id = [];
      payload_length = 0;
    } in
    then_run (write_header s h)
      (λ header. then_run (returned (read_24 s)) (λ pong. returned (ok tt)))
