-- ===== src/Transport/Tcp/Headers.antt =====
-- transports/tcp/src/lib.rs: what becomes of a header on its way.
use mathlib.Core.List.{append_assoc}
use tensorgrid.Base.{
  sym, ℕ, zero, suc, ◌+◌, ◌-◌, ◌*◌, ◌/◌, ◌^◌, ◌≡◌, ◌≤◌, ◌<◌, min, refl, ap, ◌∙◌, false, Option,
  none, some, [], ◌∷◌, ◌++◌, length, take, drop, Bytes, from_be_bytes, to_be_bytes,
  from_be_bytes-snoc, from_be_bytes-to_be_bytes, length-append, take-append, drop-append, ok, arith,
  ltb, and_then,
}
use tensorgrid.Transport.Tcp.{
  check_ack, write_all, then_run, zeros, MessageType, tensor_transfer, ping_message, ack_message,
  as_u8, from_u8, MessageHeader, panicked, returned, copy_from_slice, trim_zeros, TcpStream,
  header_buf, write_header, read_header, handle_ping, send_tensor, ping,
}

-- A buffer that is shorter than a range takes no bytes.
copy_from_slice-short :
    (from to : ℕ) (src buf : Bytes) → length buf < to → copy_from_slice from to src buf ≡ none
copy_from_slice-short from to src buf short = ground arith

length-drop : (n : ℕ) (xs : Bytes) → length (drop n xs) ≡ length xs - n
length-drop zero xs = omega arith
length-drop (suc n) [] = omega arith
length-drop (suc n) (x ∷ xs) = omega (arith, length-drop n xs)

length-take-min : (n : ℕ) (xs : Bytes) → length (take n xs) ≡ min n (length xs)
length-take-min zero xs = omega arith
length-take-min (suc n) [] = omega arith
length-take-min (suc n) (x ∷ xs) = omega (arith, length-take-min n xs)

length-copy_from_slice :
    (from to : ℕ) (src buf out : Bytes)
    → from ≤ to
    → copy_from_slice from to src buf ≡ some out
    → length out ≡ length buf
length-copy_from_slice from to src buf out le e =
    let whole = length-append (take from buf) (src ++ drop to buf) in
    let right = length-append src (drop to buf) in
    ground (arith, whole, right, length-take-min from buf, length-drop to buf)

-- After a copy into a buffer, no longer range can be copied to.
copy_from_slice-twice :
    (out : Option Bytes) (from to : ℕ) (src : Bytes)
    → ((buf : Bytes) → out ≡ some buf → length buf < to)
    → and_then (copy_from_slice from to src) out ≡ none
copy_from_slice-twice none from to src h = refl
copy_from_slice-twice (some buf) from to src h = copy_from_slice-short from to src buf (h buf refl)

header_buf-none : (h : MessageHeader) → header_buf h ≡ none
header_buf-none h =
    let id = take 16 h.tensor_id in
    copy_from_slice-twice (copy_from_slice 1 (1 + length id) id (as_u8 h.message_type ∷ zeros 23))
      17 25 (take 7 (to_be_bytes 8 h.payload_length))
      (λ buf e. omega (
        arith,
        length-copy_from_slice 1 (1 + length id) id (as_u8 h.message_type ∷ zeros 23) buf
            (omega arith) e,
      ))

write_header-panicked : (s : TcpStream) (h : MessageHeader) → write_header s h ≡ panicked
write_header-panicked s h =
    ap (λ b. elim b [ none ↦ panicked | some bytes ↦ returned (write_all s bytes) ])
      (header_buf-none h)

-- No header is ever written: the program panics on the slice 17..25 of the 24 bytes of a header, whatever
-- the message: a client panics where it sends a tensor or a ping, and so does the server's handler of a
-- ping.
pub write_header_panics :
    (s : TcpStream) (h : MessageHeader) (tensor_id payload reply : Bytes)
    → (write_header s h ≡ panicked)
      × (send_tensor s tensor_id payload reply ≡ panicked)
      × (ping s ≡ panicked)
      × (handle_ping s ≡ panicked)
write_header_panics s h tensor_id payload reply = (
  write_header-panicked s h,
  ap
      (λ r.
        then_run r (λ header.
          then_run (returned (write_all s payload)) (λ sent. returned (check_ack reply))))
      (write_header-panicked s (record {
        message_type = tensor_transfer;
        tensor_id = tensor_id;
        payload_length = length payload;
      })),
  refl,
  refl,
)

from_u8-as_u8 : (t : MessageType) → from_u8 (as_u8 t) ≡ ok t
from_u8-as_u8 tensor_transfer = refl
from_u8-as_u8 ping_message = refl
from_u8-as_u8 ack_message = refl

-- Two pieces in front, and each of them.
take_two :
    (m n : ℕ) (xs ys rest : Bytes)
    → length xs ≡ m
    → length ys ≡ n
    → take (m + n) (xs ++ (ys ++ rest)) ≡ xs ++ ys
take_two m n xs ys rest ex ey =
    ap (take (m + n)) (sym (append_assoc xs ys rest))
    ∙ ap (λ k. take k ((xs ++ ys) ++ rest)) (omega (arith, length-append xs ys))
    ∙ take-append (xs ++ ys) rest

take_first : (m : ℕ) (xs ys : Bytes) → length xs ≡ m → take m (xs ++ ys) ≡ xs
take_first m xs ys e = ap (λ k. take k (xs ++ ys)) (sym e) ∙ take-append xs ys

drop_first : (m : ℕ) (xs ys : Bytes) → length xs ≡ m → drop m (xs ++ ys) ≡ ys
drop_first m xs ys e = ap (λ k. drop k (xs ++ ys)) (sym e) ∙ drop-append xs ys

length_rounds :
    (id : Bytes) (n : ℕ)
    → length id ≡ 16
    → n < 2 ^ 64
    → from_be_bytes 0 (take 7 (drop 16 (id ++ take 7 (to_be_bytes 8 n))) ++ 0 ∷ []) ≡ n / 256 * 256
length_rounds id n long small =
    let seven = to_be_bytes 7 (n / 256) in
    ap (λ x. from_be_bytes 0 (take 7 x ++ 0 ∷ [])) (drop_first 16 id seven long)
    ∙ from_be_bytes-snoc 0 seven 0
    ∙ omega (arith, from_be_bytes-to_be_bytes 7 (n / 256) (omega arith))

-- A header of a type, 16 bytes of identifier and the first seven bytes of a length, which is what
-- `write_header` means to send, is read with the length rounded down to a multiple of 256.
pub read_header_rounds :
    (lossy : Bytes → Bytes) (s : TcpStream) (t : MessageType) (id rest : Bytes) (n : ℕ)
    → length id ≡ 16
    → n < 2 ^ 64
    → s.header_bytes ≡ as_u8 t ∷ id ++ (take 7 (to_be_bytes 8 n) ++ rest)
    → read_header lossy s
      ≡ ok (record {
        message_type = t;
        tensor_id = trim_zeros (lossy id);
        payload_length = n / 256 * 256;
      })
read_header_rounds lossy s t id rest n long small e =
    let seven = take 7 (to_be_bytes 8 n) in
    let first : take 24 s.header_bytes ≡ as_u8 t ∷ (id ++ seven) =
      ap (take 24) e ∙ ap (◌∷◌ (as_u8 t)) (take_two 16 7 id seven rest long refl) in
    let enough : ltb (length s.header_bytes) 24 ≡ false =
      ground (arith, ap length e, length-append id (seven ++ rest), length-append seven rest) in
    rw (enough, first, from_u8-as_u8 t)
      (ap
          (λ i. ok (record {
            message_type = t;
            tensor_id = trim_zeros (lossy i);
            payload_length = from_be_bytes 0 (take 7 (drop 16 (id ++ seven)) ++ 0 ∷ []);
          }))
          (take_first 16 id seven long)
        ∙ ap
            (λ l.
              ok (record {
                message_type = t;
                tensor_id = trim_zeros (lossy id);
                payload_length = l;
              }))
            (length_rounds id n long small))
