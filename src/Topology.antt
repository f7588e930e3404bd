-- ===== src/Topology.antt =====
-- crates/topology/src/lib.rs: the profile of a cluster and the grade of a measured link. What the
-- sockets and the clock give, the latencies, is an argument: a latency fails where a socket cannot be bound,
-- connected or sent to, while a failed receive is ignored and a lost answer is waited for for ever.
pub mod Profile
pub mod Tests
use tensorgrid.Base.{
  ℕ, zero, suc, ◌*◌, String, Option, none, some, List, [], ◌∷◌, ◌++◌, map, length, ◌&&◌, leb, ltb,
  if◌then◌else◌, id_key, Result, ok, err, ◌>>=◌,
}
use tensorgrid.HashMap.{HashMap, keys, get, insert}
use tensorgrid.Float.{Float}
use tensorgrid.Types.{LinkMeasurement, NodeTopology, ClusterTopology, NodeId, Uuid}

pub data LinkQuality : Type 0 where
  excellent good acceptable poor : LinkQuality

unfoldable pub estimate_link_quality : {F : Type 0} → LinkMeasurement F → LinkQuality
estimate_link_quality m =
    if leb 10000 m.bandwidth_mbps && ltb m.latency_us 100
    then excellent
    else if leb 2500 m.bandwidth_mbps && ltb m.latency_us 500
    then good
    else if leb 1000 m.bandwidth_mbps && ltb m.latency_us 2000
    then acceptable
    else poor

pub record BenchmarkConfig : Type 0 where
  pub latency_samples : ℕ  -- u32
  pub bandwidth_duration_secs : ℕ  -- u32
  pub bandwidth_size_bytes : ℕ  -- u64

abbrev pub default_config : BenchmarkConfig
default_config = record {
  latency_samples = 10;
  bandwidth_duration_secs = 5;
  bandwidth_size_bytes = 100 * 1024 * 1024;
}

-- What the profiler meets while it measures one link: the eleven latencies, each of which may fail, and
-- the two random identifiers. `E` is the type of errors.
pub record Answers (E : Type 0) : Type 0 where
  pub latency : Result E ℕ
  pub samples : ℕ → Result E ℕ
  pub from : Uuid
  pub to : Uuid

-- The first failure of the measurements, or all of them.
abbrev pub collect : {E : Type 0} → ℕ → (ℕ → Result E ℕ) → Result E (List ℕ)
collect zero samples = ok []
collect (suc n) samples =
    let rest = collect n (λ i. samples (suc i)) in
    samples 0 >>= λ latency. rest >>= λ latencies. ok (latency ∷ latencies)

module _ {F : Type 0} (fl : Float F) where
  abbrev sum_f : F → List F → F
  sum_f acc [] = acc
  sum_f acc (x ∷ xs) = sum_f (fl.add acc x) xs

  abbrev pub mean_f : List F → F
  mean_f xs = fl.div (sum_f (fl.of_ℕ 0) xs) (fl.of_ℕ (length xs))

  abbrev square_off : F → ℕ → F
  square_off mean x = fl.mul (fl.sub (fl.of_ℕ x) mean) (fl.sub (fl.of_ℕ x) mean)

  abbrev pub deviation : (F → F) → List ℕ → ℕ
  deviation sqrt latencies =
      let mean = mean_f (map fl.of_ℕ latencies) in
      let variance = mean_f (map (square_off mean) latencies) in fl.to_u32 (sqrt variance)

  abbrev pub placeholder : NodeTopology F
  placeholder = record {
    cpu_score = fl.lit 100 0;
    ram_usable_bytes = 16 * 1024 * 1024 * 1024;
    devices = "cpu:0" ∷ [];
  }

-- `sqrt` is f64's, beside the operations of the other floats.
module _ {F E : Type 0} (fl : Float F) (sqrt : F → F) where
  abbrev pub measure_jitter : (ℕ → Result E ℕ) → Result E ℕ
  measure_jitter samples = collect 10 samples >>= λ latencies. ok (deviation fl sqrt latencies)

  abbrev pub measure_bandwidth : Result E ℕ
  measure_bandwidth = ok 1000

  unfoldable pub measure_link : Answers E → Result E (LinkMeasurement F)
  measure_link a = a.latency >>= λ latency_us. measure_bandwidth >>= λ bandwidth_mbps.
      measure_jitter a.samples >>= λ jitter_us. ok (record {
        from = a.from;
        to = a.to;
        transport = "tcp";
        latency_us = latency_us;
        bandwidth_mbps = bandwidth_mbps;
        jitter_us = jitter_us;
        packet_loss_percent = fl.lit 0 0;
      })

  abbrev pub push_measured :
      Result E (LinkMeasurement F) → List (LinkMeasurement F) → List (LinkMeasurement F)
  push_measured (ok measurement) links = links ++ measurement ∷ []
  push_measured (err e) links = links

  -- One pair of the inner loop, by the addresses that the map has: a link that is measured is added.
  -- `answers` is what the profiler meets between two addresses.
  abbrev pub add_between :
      (String → String → Answers E)
      → Option String
      → Option String
      → List (LinkMeasurement F)
      → List (LinkMeasurement F)
  add_between answers (some from_addr) (some to_addr) links =
      push_measured (measure_link (answers from_addr to_addr)) links
  add_between answers (some from_addr) none links = links
  add_between answers none to_addr links = links

  abbrev pub add_link :
      (String → String → Answers E)
      → HashMap NodeId String
      → NodeId
      → NodeId
      → List (LinkMeasurement F)
      → List (LinkMeasurement F)
  add_link answers addresses from_id to_id links =
      add_between answers (get from_id addresses) (get to_id addresses) links

  unfoldable pub add_links :
      (String → String → Answers E)
      → HashMap NodeId String
      → NodeId
      → List NodeId
      → List (LinkMeasurement F)
      → List (LinkMeasurement F)
  add_links answers addresses from_id [] links = links
  add_links answers addresses from_id (to_id ∷ rest) links =
      add_links answers addresses from_id rest (add_link answers addresses from_id to_id links)

  -- The outer loop over the identifiers, each with those after it.
  unfoldable pub profile_nodes :
      (String → String → Answers E)
      → HashMap NodeId String
      → List NodeId
      → ClusterTopology F
      → ClusterTopology F
  profile_nodes answers addresses [] t = t
  profile_nodes answers addresses (from_id ∷ rest) t =
      profile_nodes answers addresses rest (record {
        nodes = insert from_id (placeholder fl) t.nodes;
        links = add_links answers addresses from_id rest t.links;
      })

  unfoldable pub profile_cluster :
      (String → String → Answers E) → HashMap NodeId String → ClusterTopology F
  profile_cluster answers addresses =
      profile_nodes answers addresses (keys addresses) (record { nodes = []; links = [] })
