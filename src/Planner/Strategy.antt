-- ===== src/Planner/Strategy.antt =====
-- services/planner/src/lib.rs and crates/topology/src/lib.rs: `select_strategy` beside the link grades.
use tensorgrid.Base.{◌^◌, ◌<◌, ◌≡◌, ◌≢◌, none, List, [], ◌∷◌, map, arith, All, length, sum}
use tensorgrid.Types.{LinkMeasurement, LogicalCluster, pipeline_hybrid}
use tensorgrid.Topology.{excellent, estimate_link_quality}
use tensorgrid.Planner.{PlanningRequest, select_strategy}
use tensorgrid.Planner.Averages.{AllWithin, bandwidths, latencies, averages_within}

abbrev pub AllExcellent : {F : Type 0} → List (LinkMeasurement F) → Type 0
AllExcellent = All (λ l. estimate_link_quality l ≡ excellent)

excellent_ranges :
    {F : Type 0} (ls : List (LinkMeasurement F))
    → AllExcellent ls
    → sum (map (λ l. l.bandwidth_mbps) ls) < 2 ^ 32
    → AllWithin 10000 (2 ^ 32) (map (λ l. l.bandwidth_mbps) ls)
      × AllWithin 0 99 (map (λ l. l.latency_us) ls)
unfolding estimate_link_quality sum
excellent_ranges [] h s = (tt, tt)
excellent_ranges (l ∷ ls) h s =
    let (b, t) = excellent_ranges ls h.1 (omega arith) in
    (((ground arith, omega arith), b), ((omega arith, ground arith), t))

-- On a cluster of at least one link and fewer than 2^32, all excellent, whose bandwidths and
-- latencies have sums that fit in a u32, a request without a preference gets the hybrid strategy.
pub excellent_links-hybrid :
    {F : Type 0} (r : PlanningRequest) (c : LogicalCluster F)
    → r.preferred_strategy ≡ none
    → c.topology.links ≢ []
    → length c.topology.links < 2 ^ 32
    → AllExcellent c.topology.links
    → sum (bandwidths c.topology) < 2 ^ 32
    → sum (latencies c.topology) < 2 ^ 32
    → select_strategy r c ≡ pipeline_hybrid
unfolding select_strategy
excellent_links-hybrid r c p some_link few good bs ls =
    let (b, l) = excellent_ranges c.topology.links good bs in
    ground (arith, averages_within c.topology 10000 (2 ^ 32) 0 99 some_link few b bs l ls)
