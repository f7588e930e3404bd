-- ===== src/Planner/Choice.antt =====
-- services/planner/src/lib.rs: the nodes and the strategy that a plan is made for, said apart from the
-- code.
use native.Mathlib.Nat.{mod-eq_of_lt, le-div_iff_mul-le}
use tensorgrid.Base.{
  ◌∙◌, suc, ◌⊎◌, ap, retain, dec_le, ℕ, ◌*◌, ◌/◌, ◌^◌, ◌<◌, ◌≤◌, ◌≡◌, ◌≢◌, refl, true, false, ◌&&◌,
  List, [], ◌∷◌, none, some, map, length, arith, leb, ltb, if◌then◌else◌, sum, sum_u32-eq-sum,
  length-map, inl, inr,
}
use tensorgrid.Types.{
  NodeId, PhysicalNode, NodeStatus, healthy, suspect, unavailable, draining, maintenance,
  LinkMeasurement, LogicalCluster, ParallelismStrategy, pipeline, pipeline_hybrid,
}
use tensorgrid.Planner.{
  PlanningRequest, Nodes, is_healthy, available_nodes, select_strategy, average, average_bandwidth,
  average_latency,
}

-- The second list is the healthy nodes of the first, in their order.
pub data IsHealthyOf {F : Type 0} : Nodes F → Nodes F → Type 0 where
  end : IsHealthyOf [] []
  kept :
      {n : NodeId × PhysicalNode F} {ns hs : Nodes F}
      → n.1.status ≡ healthy
      → IsHealthyOf ns hs
      → IsHealthyOf (n ∷ ns) (n ∷ hs)
  dropped :
      {n : NodeId × PhysicalNode F} {ns hs : Nodes F}
      → n.1.status ≢ healthy
      → IsHealthyOf ns hs
      → IsHealthyOf (n ∷ ns) hs

abbrev pub bandwidth_sum : {F : Type 0} → List (LinkMeasurement F) → ℕ
bandwidth_sum ls = sum (map (λ l. l.bandwidth_mbps) ls)

abbrev pub latency_sum : {F : Type 0} → List (LinkMeasurement F) → ℕ
latency_sum ls = sum (map (λ l. l.latency_us) ls)

-- The strategy for the links: by the mean bandwidth and latency, without a division.
abbrev pub by_links : ℕ → ℕ → ℕ → ParallelismStrategy
by_links n bandwidth latency =
    if leb (10000 * n) bandwidth && ltb latency (100 * n)
    then pipeline_hybrid
    else if leb (2500 * n) bandwidth && ltb latency (500 * n)
    then pipeline
    else if leb (1000 * n) bandwidth
    then pipeline_hybrid
    else pipeline

abbrev pub strategy_of :
    {F : Type 0} → PlanningRequest → List (LinkMeasurement F) → ParallelismStrategy
strategy_of r ls = elim r.preferred_strategy [
  | some s ↦ s
  | none ↦ by_links (length ls) (bandwidth_sum ls) (latency_sum ls)
]

leb_div : (k s n : ℕ) → 0 < n → leb k (s / n) ≡ leb (k * n) s
leb_div k s n pos = elim (dec_le k (s / n)) [
  | yes at_most ↦ ground (arith, at_most, (le-div_iff_mul-le pos).0 at_most)
  | no above ↦ ground (arith, above, λ (h : k * n ≤ s). above ((le-div_iff_mul-le pos).1 h))
]

ltb_div : (k s n : ℕ) → 0 < n → ltb (s / n) k ≡ ltb s (k * n)
ltb_div k s n pos = elim (dec_le k (s / n)) [
  | yes at_most ↦ ground (arith, at_most, (le-div_iff_mul-le pos).0 at_most)
  | no above ↦ ground (arith, above, λ (h : k * n ≤ s). above ((le-div_iff_mul-le pos).1 h))
]

average-cons :
    (x : ℕ) (xs : List ℕ)
    → sum (x ∷ xs) < 2 ^ 32
    → length (x ∷ xs) < 2 ^ 32
    → average (x ∷ xs) ≡ sum (x ∷ xs) / length (x ∷ xs)
average-cons x xs fits few =
    rw (sum_u32-eq-sum 0 (x ∷ xs) (omega arith), mod-eq_of_lt few)
      (ap (λ s. s / length (x ∷ xs)) (omega arith))

-- The code's choice, by the averages.
by_averages : ℕ → ℕ → ParallelismStrategy
by_averages bandwidth latency =
    if leb 10000 bandwidth && ltb latency 100
    then pipeline_hybrid
    else if leb 2500 bandwidth && ltb latency 500
    then pipeline
    else if leb 1000 bandwidth
    then pipeline_hybrid
    else pipeline

by_averages-by_links : (n b l : ℕ) → 0 < n → by_averages (b / n) (l / n) ≡ by_links n b l
unfolding by_averages
by_averages-by_links n b l pos =
    rw
      (
        leb_div 10000 b n pos,
        leb_div 2500 b n pos,
        leb_div 1000 b n pos,
        ltb_div 100 l n pos,
        ltb_div 500 l n pos,
      )
      refl

healthy-cases :
    (s : NodeStatus)
    → ((elim s [ healthy ↦ true | _ ↦ false ] ≡ true) × (s ≡ healthy))
      ⊎ ((elim s [ healthy ↦ true | _ ↦ false ] ≡ false) × (s ≢ healthy))
healthy-cases healthy = inl (refl, refl)
healthy-cases suspect = inr (refl, λ e. cc)
healthy-cases unavailable = inr (refl, λ e. cc)
healthy-cases draining = inr (refl, λ e. cc)
healthy-cases maintenance = inr (refl, λ e. cc)

module _ {F : Type 0} where
  retain-IsHealthyOf : (ns : Nodes F) → IsHealthyOf ns (retain is_healthy ns)
  retain-IsHealthyOf [] = end
  retain-IsHealthyOf ((id, node) ∷ ns) = elim (healthy-cases node.status) [
    | inl (up, same) ↦ rw up (kept same (retain-IsHealthyOf ns))
    | inr (down, other) ↦ rw down (dropped other (retain-IsHealthyOf ns))
  ]

  pub available_nodes-IsHealthyOf : (c : LogicalCluster F) → IsHealthyOf c.nodes (available_nodes c)
  unfolding available_nodes
  available_nodes-IsHealthyOf c = retain-IsHealthyOf c.nodes

  links_choice :
      (ls : List (LinkMeasurement F))
      → length ls < 2 ^ 32
      → bandwidth_sum ls < 2 ^ 32
      → latency_sum ls < 2 ^ 32
      → by_averages
          (average (map (λ l. l.bandwidth_mbps) ls))
          (average (map (λ l. l.latency_us) ls))
        ≡ by_links (length ls) (bandwidth_sum ls) (latency_sum ls)
  unfolding by_averages sum
  links_choice [] few bs lats = refl
  links_choice (l ∷ ls) few bs lats =
      let b =
        average-cons l.bandwidth_mbps (map (λ k. k.bandwidth_mbps) ls) bs
          (omega (arith, few, length-map (λ (k : LinkMeasurement F). k.bandwidth_mbps) ls)) in
      let t =
        average-cons l.latency_us (map (λ k. k.latency_us) ls) lats
          (omega (arith, few, length-map (λ (k : LinkMeasurement F). k.latency_us) ls)) in
      let n = suc (length ls) in
      let b_n =
        b
        ∙ ap (λ k. bandwidth_sum (l ∷ ls) / suc k)
            (length-map (λ (k : LinkMeasurement F). k.bandwidth_mbps) ls) in
      let t_n =
        t
        ∙ ap (λ k. latency_sum (l ∷ ls) / suc k)
            (length-map (λ (k : LinkMeasurement F). k.latency_us) ls) in
      ap (λ x. by_averages x (average (map (λ k. k.latency_us) (l ∷ ls)))) b_n
      ∙ ap (by_averages (bandwidth_sum (l ∷ ls) / n)) t_n
      ∙ by_averages-by_links n (bandwidth_sum (l ∷ ls)) (latency_sum (l ∷ ls)) (omega arith)

  pub select_strategy-strategy_of :
      (r : PlanningRequest) (c : LogicalCluster F)
      → length c.topology.links < 2 ^ 32
      → bandwidth_sum c.topology.links < 2 ^ 32
      → latency_sum c.topology.links < 2 ^ 32
      → select_strategy r c ≡ strategy_of r c.topology.links
  unfolding select_strategy average_bandwidth average_latency by_averages
  select_strategy-strategy_of r c few bs lats =
      ap (λ s. elim r.preferred_strategy [ some p ↦ p | none ↦ s ])
        (links_choice c.topology.links few bs lats)
