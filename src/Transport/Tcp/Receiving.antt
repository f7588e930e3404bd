-- ===== src/Transport/Tcp/Receiving.antt =====
-- transports/tcp/src/lib.rs: the loop that receives a tensor.
use tensorgrid.Base.{
  ◌∙◌, ◌>>=◌, ap, Result, ◌↔◌, ℕ, ◌+◌, ◌-◌, ◌≡◌, ◌≤◌, min, refl, true, Option, none, some, List, [],
  ◌∷◌, ok, err, arith, if◌then◌else◌, ◌==◌,
}
use tensorgrid.Transport.Tcp.{
  send_ack, TcpConfig, TcpError, MessageHeader, TcpStream, receive, handle_tensor_transfer,
}

-- What the peer delivers before the connection ends: no read takes more than the buffer.
unfoldable pub delivered : ℕ → List (Option ℕ) → ℕ
delivered buffer [] = 0
delivered buffer (none ∷ more) = 0
delivered buffer (some a ∷ more) =
    let rest = delivered buffer more in if min buffer a == 0 then 0 else min buffer a + rest

receive-enough :
    (buffer payload total : ℕ) (arrivals : List (Option ℕ))
    → total ≤ payload
    → payload ≤ total + delivered buffer arrivals
    → receive buffer payload total arrivals ≡ ok payload
unfolding receive delivered
receive-enough buffer payload total [] le enough = ground arith
receive-enough buffer payload total (none ∷ more) le enough = ground arith
receive-enough buffer payload total (some a ∷ more) le enough =
    let n = min (min buffer (payload - total)) a in
    ground (arith, receive-enough buffer payload (total + n) more)

receive-ok :
    (buffer payload total received : ℕ) (arrivals : List (Option ℕ))
    → total ≤ payload
    → receive buffer payload total arrivals ≡ ok received
    → (received ≡ payload) × (payload ≤ total + delivered buffer arrivals)
unfolding receive delivered
receive-ok buffer payload total received [] le e = ground arith
receive-ok buffer payload total received (none ∷ more) le e = ground arith
receive-ok buffer payload total received (some a ∷ more) le e =
    let n = min (min buffer (payload - total)) a in
    ground (arith, receive-ok buffer payload (total + n) received more)

acknowledged :
    (r : Result TcpError ℕ) (s : TcpStream)
    → (r >>= λ received. send_ack s true) ≡ ok (1 ∷ [])
    → (received : ℕ) × (r ≡ ok received) × (s.writable ≡ true)
acknowledged (ok received) s e = (received, refl, ground arith)
acknowledged (err x) s e = absurd (ground arith)

-- A tensor is received in full and acknowledged exactly where the peer delivers at least its length,
-- each read counted up to the buffer's size, and the acknowledgement can be written.
pub handle_tensor_transfer-delivered :
    (c : TcpConfig) (s : TcpStream) (h : MessageHeader)
    → (handle_tensor_transfer c s h ≡ ok (1 ∷ []))
      ↔ ((h.payload_length ≤ delivered c.buffer_size s.arrivals) × (s.writable ≡ true))
handle_tensor_transfer-delivered c s h = (
  λ done.
      let r = receive c.buffer_size h.payload_length 0 s.arrivals in
      let (received, all, sent) = acknowledged r s done in
      (
        omega (
          arith,
          (receive-ok c.buffer_size h.payload_length 0 received s.arrivals (omega arith) all).1,
        ),
        sent,
      ),
  λ (enough, sent).
      ap (λ r. r >>= λ received. send_ack s true)
        (receive-enough c.buffer_size h.payload_length 0 s.arrivals (omega arith) (omega arith))
      ∙ rw sent refl,
)
