-- ===== src/Transport/Tcp/Tests.antt =====
-- transports/tcp/src/lib.rs: a connection at concrete inputs.
use tensorgrid.Base.{
  ◌+◌, ◌≡◌, ◌≤◌, ◌↔◌, refl, true, none, some, List, [], ◌∷◌, ◌++◌, take, Bytes, to_be_bytes, ok,
  arith,
}
use tensorgrid.Transport.Tcp.{
  TcpConfig, default_config, TcpStream, tensor_transfer, MessageHeader, new, returned, panicked,
  write_header, read_header, receive, handle_tensor_transfer, handle_ping, send_tensor, ping,
  get_stats,
}
use tensorgrid.Transport.Tcp.Headers.{write_header_panics, read_header_rounds}
use tensorgrid.Transport.Tcp.Receiving.{delivered, handle_tensor_transfer-delivered}
use tensorgrid.Transport.Tcp.Connections.{Event, begun, ended, run, open_after, lost, run-get_stats}

abbrev small : TcpConfig
small = record default_config { buffer_size = 4 }

abbrev id : Bytes
id = 116 ∷ 49 ∷ 0 ∷ 0 ∷ 0 ∷ 0 ∷ 0 ∷ 0 ∷ 0 ∷ 0 ∷ 0 ∷ 0 ∷ 0 ∷ 0 ∷ 0 ∷ 0 ∷ []

-- 300 bytes announced, as the length's first seven bytes say 256.
abbrev stream : TcpStream
stream = record {
  header_bytes = 0 ∷ (id ++ (take 7 (to_be_bytes 8 300) ++ []));
  arrivals = some 3 ∷ some 9 ∷ none ∷ [];
  writable = true;
}

abbrev seven_bytes : MessageHeader
seven_bytes = record { message_type = tensor_transfer; tensor_id = 116 ∷ []; payload_length = 7 }

write_header_panics_example :
    (write_header stream seven_bytes ≡ panicked)
    × (send_tensor stream (116 ∷ []) (1 ∷ 2 ∷ []) (1 ∷ []) ≡ panicked)
    × (ping stream ≡ panicked)
    × (handle_ping stream ≡ panicked)
write_header_panics_example =
    write_header_panics stream seven_bytes (116 ∷ []) (1 ∷ 2 ∷ []) (1 ∷ [])

read_header_rounds_example :
    read_header (λ s. s) stream
    ≡ ok
        (record { message_type = tensor_transfer; tensor_id = 116 ∷ 49 ∷ []; payload_length = 256 })
read_header_rounds_example =
    read_header_rounds (λ s. s) stream tensor_transfer id [] 300 refl (omega arith) refl

handle_tensor_transfer-delivered_example :
    (handle_tensor_transfer small stream seven_bytes ≡ ok (1 ∷ []))
    ↔ ((7 ≤ delivered 4 stream.arrivals) × (true ≡ true))
handle_tensor_transfer-delivered_example = handle_tensor_transfer-delivered small stream seven_bytes

-- It does receive the seven bytes.
seven_received : handle_tensor_transfer small stream seven_bytes ≡ ok (1 ∷ [])
unfolding receive
seven_received = refl

-- Two connections, the first of which pings.
abbrev events : List Event
events = begun ∷ begun ∷ ended panicked ∷ ended (returned (ok [])) ∷ begun ∷ []

run-get_stats_example :
    (get_stats (run events (new small))).active_connections ≡ open_after 0 events + lost events
run-get_stats_example = run-get_stats small events (omega arith, (omega arith, tt))
