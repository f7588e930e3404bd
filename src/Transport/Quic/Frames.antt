-- ===== src/Transport/Quic/Frames.antt =====
-- transports/quic/src/lib.rs: a tensor that is sent is received.
use mathlib.Core.List.{append_assoc}
use tensorgrid.Base.{
  sym, ◌>>=◌, id_key, ℕ, ◌<◌, ◌^◌, ◌≡◌, refl, ap, ◌∙◌, true, false, ◌++◌, length, Bytes,
  to_be_bytes, from_be_bytes, from_be_bytes-to_be_bytes, take-append, drop-append, length-append,
  Result, ok, err, arith, ltb, u32,
}
use tensorgrid.Types.{NodeId, TensorId}
use tensorgrid.HashMap.{get}
use tensorgrid.Transport.Quic.{
  stream_error, send_error, node_not_found, require, or_else, QuicError, Json, IsJson, Wire,
  read_exact, send_frame, receive_tensor, QuicServer, send_tensor,
}

read_exact-append : (n : ℕ) (xs ys : Bytes) → length xs ≡ n → read_exact n (xs ++ ys) ≡ ok (xs, ys)
read_exact-append n xs ys e = rw (← e) (
    let enough : ltb (length (xs ++ ys)) (length xs) ≡ false =
      ground (arith, length-append xs ys) in
    rw (enough, take-append xs ys, drop-append xs ys) refl)

module _ {A B : Type 0} where
  -- The step in front of a chain that succeeds.
  step_back :
      (r : Result QuicError A) (f : A → Result QuicError B) (b : B)
      → (r >>= f) ≡ ok b
      → (a : A) × (f a ≡ ok b)
  step_back (ok a) f b e = (a, e)
  step_back (err x) f b e = absurd (ground arith)

-- What a send that succeeds has put on the stream.
send_frame-ok :
    (j : Json) (w : Wire) (t : TensorId) (payload wire : Bytes)
    → send_frame j w t payload ≡ ok wire
    → wire
      ≡ to_be_bytes 4 (u32 (length (j.to_bytes t (length payload))))
        ++ (j.to_bytes t (length payload) ++ payload)
send_frame-ok j w t payload wire e =
    let a = step_back (require stream_error w.opens) _ wire e in
    let b = step_back (require send_error w.takes_length) _ wire a.1 in
    let c = step_back (require send_error w.takes_metadata) _ wire b.1 in
    let d = step_back (require send_error w.takes_data) _ wire c.1 in
    let f = step_back (require send_error w.finishes) _ wire d.1 in
    ap (λ r. elim r [ ok x ↦ x | err x ↦ wire ]) (sym f.1)

receive_tensor-frame :
    (j : Json) (t : TensorId) (payload rest : Bytes) (js : IsJson j t (length payload))
    → length (j.to_bytes t (length payload)) < 2 ^ 32
    → let metadata = j.to_bytes t (length payload) in
      receive_tensor j true
        (to_be_bytes 4 (u32 (length metadata)) ++ (metadata ++ (payload ++ rest)))
      ≡ ok (t, payload)
receive_tensor-frame j t payload rest js short =
    let metadata = j.to_bytes t (length payload) in
    let len : from_be_bytes 0 (to_be_bytes 4 (u32 (length metadata))) ≡ length metadata =
      from_be_bytes-to_be_bytes 4 (u32 (length metadata)) (omega arith) ∙ omega arith in
    rw
      (
        read_exact-append 4 (to_be_bytes 4 (u32 (length metadata))) (metadata ++ (payload ++ rest))
            refl,
        len,
        read_exact-append (length metadata) metadata (payload ++ rest) refl,
        js.from_slice_ok,
        js.tensor_id_ok,
        js.size_ok,
        read_exact-append (length payload) payload rest refl,
      )
      refl

-- Where a connection is open to a node and takes the writes, what the server sends to it of a tensor, the
-- receiver makes the same tensor of, whatever stands after it on the stream. serde_json
-- reads back the metadata, of less than 2 ^ 32 bytes.
pub receive_tensor-send_tensor :
    (j : Json)
    → (w : Wire) (n : NodeId) (t : TensorId) (payload wire rest : Bytes) (s : QuicServer)
    → IsJson j t (length payload)
    → length (j.to_bytes t (length payload)) < 2 ^ 32
    → send_tensor j w n t payload s ≡ ok wire
    → receive_tensor j true (wire ++ rest) ≡ ok (t, payload)
receive_tensor-send_tensor j w n t payload wire rest s js short sent =
    let found = step_back (or_else (node_not_found n) (get n s.active_connections)) _ wire sent in
    let metadata = j.to_bytes t (length payload) in
    let head = to_be_bytes 4 (u32 (length metadata)) in
    ap (λ x. receive_tensor j true (x ++ rest)) (send_frame-ok j w t payload wire found.1)
    ∙ ap (receive_tensor j true) (
        append_assoc head (metadata ++ payload) rest
        ∙ ap (λ x. head ++ x) (append_assoc metadata payload rest))
    ∙ receive_tensor-frame j t payload rest js short
