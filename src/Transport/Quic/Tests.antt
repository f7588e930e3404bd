-- ===== src/Transport/Quic/Tests.antt =====
-- transports/quic/src/lib.rs: a tensor of three bytes over an open connection.
use tensorgrid.Base.{
  ℕ, ◌≡◌, refl, true, some, [], ◌∷◌, ◌++◌, Bytes, ok, err, arith, id_key, ℕ_discrete,
}
use tensorgrid.HashMap.{get}
use tensorgrid.Types.{TensorId}
use tensorgrid.Transport.Quic.{
  Json, IsJson, Wire, QuicServer, node_not_found, receive_tensor, send_tensor,
}
use tensorgrid.Transport.Quic.Frames.{receive_tensor-send_tensor}

-- Prints the object of one tensor, and reads that.
abbrev toy : Json
toy = record {
  Value = TensorId × ℕ;
  to_bytes = λ t n. 123 ∷ 125 ∷ [];
  from_slice = λ bs. some ("t1", 3);
  tensor_id_of = λ v. some v.0;
  size_of = λ v. some v.1;
}

toy-IsJson : IsJson toy "t1" 3
toy-IsJson = record { value = ("t1", 3); from_slice_ok = refl; tensor_id_ok = refl; size_ok = refl }

abbrev open_wire : Wire
open_wire = record {
  opens = true;
  takes_length = true;
  takes_metadata = true;
  takes_data = true;
  finishes = true;
}

abbrev server : QuicServer
server = record { active_connections = (5, 1) ∷ [] }

abbrev frame : Bytes
frame = 0 ∷ 0 ∷ 0 ∷ 2 ∷ 123 ∷ 125 ∷ 7 ∷ 8 ∷ 9 ∷ []

frame_sent : send_tensor toy open_wire 5 "t1" (7 ∷ 8 ∷ 9 ∷ []) server ≡ ok frame
unfolding get ℕ_discrete
frame_sent = refl

receive_tensor-send_tensor_example :
    receive_tensor toy true (frame ++ 1 ∷ []) ≡ ok ("t1", 7 ∷ 8 ∷ 9 ∷ [])
receive_tensor-send_tensor_example =
    receive_tensor-send_tensor toy open_wire 5 "t1" (7 ∷ 8 ∷ 9 ∷ []) frame (1 ∷ []) server
      toy-IsJson (omega arith) frame_sent

no_connection : send_tensor toy open_wire 6 "t1" (7 ∷ []) server ≡ err (node_not_found 6)
unfolding get ℕ_discrete
no_connection = refl
