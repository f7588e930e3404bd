-- ===== src/Transport/Tcp/Connections.antt =====
-- transports/tcp/src/lib.rs: the count of active connections, over any order of connections that begin
-- and end.
use tensorgrid.Base.{
  ℕ, suc, ◌+◌, ◌-◌, ◌≡◌, ◌≤◌, Bool, true, false, List, [], ◌∷◌, Bytes, ok, err, arith,
  if◌then◌else◌,
}
use tensorgrid.Transport.Tcp.{
  TcpConfig, Run, returned, panicked, TcpTransport, new, begin_connection, end_connection,
  get_stats,
}

-- A connection begins, or one that is open ends as its handler does.
pub data Event : Type 0 where
  begun : Event
  ended : Run Bytes → Event

abbrev pub step : Event → TcpTransport → TcpTransport
step begun t = begin_connection t
step (ended r) t = end_connection r t

unfoldable pub run : List Event → TcpTransport → TcpTransport
run [] t = t
run (e ∷ es) t = run es (step e t)

abbrev succeeds : Run Bytes → Bool
succeeds (returned (ok written)) = true
succeeds _ = false

-- The connections that are open after the events, from so many; none that is not open ends.
abbrev pub open_after : ℕ → List Event → ℕ
open_after n [] = n
open_after n (begun ∷ es) = open_after (suc n) es
open_after n (ended r ∷ es) = open_after (n - 1) es

abbrev pub IsOrdered : ℕ → List Event → Type 0
IsOrdered n [] = Unit
IsOrdered n (begun ∷ es) = IsOrdered (suc n) es
IsOrdered n (ended r ∷ es) = (1 ≤ n) × IsOrdered (n - 1) es

-- The connections that ended in an error or a panic.
abbrev pub lost : List Event → ℕ
lost [] = 0
lost (begun ∷ es) = lost es
lost (ended r ∷ es) = let rest = lost es in if succeeds r then rest else suc rest

run-count :
    (es : List Event) (t : TcpTransport) (n k : ℕ)
    → IsOrdered n es
    → t.active_connections ≡ n + k
    → (run es t).active_connections ≡ open_after n es + (k + lost es)
unfolding run
run-count [] t n k o e = omega arith
run-count (begun ∷ es) t n k o e =
    omega (arith, run-count es (begin_connection t) (suc n) k o (omega arith))
run-count (ended (returned (ok w)) ∷ es) t n k o e =
    let t' = end_connection (returned (ok w)) t in
    omega (arith, o.0, run-count es t' (n - 1) k o.1 (omega (arith, o.0)))
run-count (ended (returned (err x)) ∷ es) t n k o e =
    omega (arith, o.0, run-count es t (n - 1) (suc k) o.1 (omega (arith, o.0)))
run-count (ended panicked ∷ es) t n k o e =
    omega (arith, o.0, run-count es t (n - 1) (suc k) o.1 (omega (arith, o.0)))

-- Whatever the order in which connections begin and end, the count of active connections is the number
-- of the open ones and of all that ended in an error or a panic: those are never taken off again.
pub run-get_stats :
    (c : TcpConfig) (es : List Event)
    → IsOrdered 0 es
    → (get_stats (run es (new c))).active_connections ≡ open_after 0 es + lost es
run-get_stats c es o = omega (arith, run-count es (new c) 0 0 o (omega arith))
