-- ===== src/Transport/Rdma/Tables.antt =====
-- transports/rdma/src/lib.rs: the tables of a server, over any calls.
use tensorgrid.Base.{ℕ, ◌≡◌, refl, String, List, [], ◌∷◌, arith, id_key, name_key}
use tensorgrid.HashMap.{get}
use tensorgrid.HashMap.Entries.{AllEntries, insert-AllEntries}
use tensorgrid.Types.{NodeId}
use tensorgrid.Transport.Rdma.{
  connected, Keys, RdmaServer, new_server, register_memory_region, accept,
}

pub data Call : Type 0 where
  register : Keys → String → ℕ → ℕ → Call
  accept_node : NodeId → ℕ → Call

abbrev pub step : Call → RdmaServer → RdmaServer
step (register k id addr size) s = register_memory_region k id addr size s
step (accept_node n qp) s = (accept n qp s).1

unfoldable pub run : List Call → RdmaServer → RdmaServer
run [] s = s
run (c ∷ cs) s = run cs (step c s)

-- Each region and each connection is stored under its own name, and every connection is connected.
pub record IsFiled (s : RdmaServer) : Type 0 where
  pub regions_ok : AllEntries (λ id r. r.id ≡ id) s.registered_memory_regions
  pub connections_ok :
      AllEntries (λ n c. (c.node_id ≡ n) × (c.state ≡ connected)) s.active_connections

step-IsFiled : (c : Call) (s : RdmaServer) → IsFiled s → IsFiled (step c s)
step-IsFiled (register k id addr size) s f = record {
  regions_ok = insert-AllEntries _ id s.registered_memory_regions f.regions_ok _ refl;
  connections_ok = f.connections_ok;
}
step-IsFiled (accept_node n qp) s f = record {
  regions_ok = f.regions_ok;
  connections_ok = insert-AllEntries _ n s.active_connections f.connections_ok _ (refl, refl);
}

pub run-IsFiled : (cs : List Call) (s : RdmaServer) → IsFiled s → IsFiled (run cs s)
unfolding run
run-IsFiled [] s f = f
run-IsFiled (c ∷ cs) s f = run-IsFiled cs (step c s) (step-IsFiled c s f)

-- From a new server on.
pub run-new_server : (addr : String) (cs : List Call) → IsFiled (run cs (new_server addr))
unfolding get
run-new_server addr cs = run-IsFiled cs (new_server addr) (record {
  regions_ok = λ id r e. absurd (ground arith);
  connections_ok = λ n c e. absurd (ground arith);
})
