-- ===== src/Planner/Partition.antt =====
-- services/planner/src/lib.rs: the nodes of the loop of `partition_model`, and its two branches.
use mathlib.Core.List.{append-nil}
use native.Mathlib.Nat.{div-add-mod, mod-lt, div-le_self}
use tensorgrid.Base.{
  ℕ, zero, suc, ◌+◌, ◌-◌, ◌*◌, ◌/◌, ◌^◌, ◌≤◌, ◌<◌, ◌≡◌, ◌∙◌, refl, ap, true, false, List, [], ◌∷◌,
  map, take, arith, length, u32, All, if◌then◌else◌, Bool-cases, inl, inr, String, retain, ltb,
  length-retain-le,
}
use tensorgrid.Float.{Float, IsExact, exact_limit}
use tensorgrid.Types.{NodeId, PhysicalNode, StagePlan}
use tensorgrid.Planner.{
  ModelMetadata, Nodes, iota, is_empty, assign_layers, select_device, has_gpu, layers_per,
  partition_pipeline, partition_hybrid,
}
use tensorgrid.Planner.Layers.{layers_of, end_after, assign_layers-last, assign_layers-layers}

abbrev pub Site : Type 0
Site = ℕ × NodeId × String

-- The id, the node and the device of the stages that go to the nodes in turn.
pub sites_from : {F : Type 0} → ℕ → Nodes F → List Site
sites_from i [] = []
sites_from i ((id, node) ∷ nodes) = (u32 i, id, select_device node) ∷ sites_from (i + 1) nodes

abbrev pub site : StagePlan → Site
site s = (s.id, s.node_id, s.device)

-- A stage has at least one layer and at most `per`.
abbrev pub IsFair : ℕ → StagePlan → Type 0
IsFair per s = (0 < length s.layers) × (length s.layers ≤ per)

length-iota : (a n : ℕ) → length (iota a n) ≡ n
unfolding iota
length-iota a zero = refl
length-iota a (suc n) = ap suc (length-iota (a + 1) n)

pub length-pos {ℓ} : {A : Type ℓ} (xs : List A) → is_empty xs ≡ false → 0 < length xs
length-pos [] h = cc
length-pos (x ∷ xs) h = omega arith

module _ {F : Type 0} (fl : Float F) (m : ModelMetadata) (per : ℕ)
    (small : per + m.layer_count < 2 ^ 32) where
  -- A node that gets no layer is followed by none that gets one.
  assign_layers_done :
      (i current : ℕ) (nodes : Nodes F)
      → is_empty (iota current (end_after m per current - current)) ≡ true
      → (assign_layers fl m per i current nodes).0 ≡ []
  unfolding assign_layers
  assign_layers_done i current [] h = refl
  assign_layers_done i current ((id, node) ∷ nodes) h =
      rw h (assign_layers_done (i + 1) current nodes h)

  pub assign_layers-sites :
      (i current : ℕ) (nodes : Nodes F)
      → let stages = (assign_layers fl m per i current nodes).0 in
        map site stages ≡ take (length stages) (sites_from i nodes)
  unfolding assign_layers sites_from
  assign_layers-sites i current [] = refl
  assign_layers-sites i current ((id, node) ∷ nodes) =
      let end_layer = end_after m per current in
      elim (Bool-cases (is_empty (iota current (end_layer - current)))) [
        | inl none_left ↦ rw none_left (rw (assign_layers_done (i + 1) current nodes none_left))
        | inr some_left ↦
            rw some_left (
              ap (◌∷◌ (u32 i, id, select_device node))
                (assign_layers-sites (i + 1) end_layer nodes))
      ]

  pub assign_layers-IsFair :
      (i current : ℕ) (nodes : Nodes F)
      → All (IsFair per) (assign_layers fl m per i current nodes).0
  unfolding assign_layers
  assign_layers-IsFair i current [] = tt
  assign_layers-IsFair i current ((id, node) ∷ nodes) =
      let end_layer = end_after m per current in
      let layers = iota current (end_layer - current) in
      elim (Bool-cases (is_empty layers)) [
        | inl none_left ↦ rw none_left (assign_layers-IsFair (i + 1) current nodes)
        | inr some_left ↦ rw some_left (
          (length-pos layers some_left, omega (arith, length-iota current (end_layer - current))),
          assign_layers-IsFair (i + 1) end_layer nodes,
        )
      ]

-- The nodes that the hybrid strategy uses: those with a GPU, or all where none has one.
pub hybrid_nodes : {F : Type 0} → Nodes F → Nodes F
hybrid_nodes nodes =
    let gpu_nodes = retain (λ n. has_gpu n.1) nodes in
    if is_empty gpu_nodes then nodes else gpu_nodes

-- A partition of the layers over nodes in turn: every layer once and in order, each stage on the
-- node of its position, and none with more than its share.
pub record IsPartition {F : Type 0} (layer_count : ℕ) (nodes : Nodes F) (stages : List StagePlan)
    : Type 0 where
  pub complete : layers_of stages ≡ iota 0 layer_count
  pub in_turn : map site stages ≡ take (length stages) (sites_from 0 nodes)
  pub fair : All (IsFair ((layer_count + length nodes - 1) / length nodes)) stages

share_covers : (l n : ℕ) → 0 < n → l ≤ 0 + (l + n - 1) / n * n
share_covers l n h = omega (arith, div-add-mod (l + n - 1) n, mod-lt (l + n - 1) h)

share_small : (l n : ℕ) → l ≤ exact_limit → n ≤ exact_limit → (l + n - 1) / n + l < 2 ^ 32
share_small l n h k = omega (arith, div-le_self (l + n - 1) n)

module _ {F : Type 0} (fl : Float F) (exact : IsExact fl) (m : ModelMetadata)
    (few_layers : m.layer_count ≤ exact_limit) where
  dealt-IsPartition :
      (nodes : Nodes F)
      → 0 < length nodes
      → length nodes ≤ exact_limit
      → let (stages, last) =
          assign_layers fl m (layers_per fl m.layer_count (length nodes)) 0 0 nodes in
        IsPartition m.layer_count nodes stages × (last ≡ m.layer_count)
  unfolding iota
  dealt-IsPartition nodes some_node few_nodes =
      rw (exact.ceil_div_exact m.layer_count (length nodes) few_layers some_node few_nodes) (
        record {
          complete = all_layers ∙ ap (iota 0) reached;
          in_turn = assign_layers-sites fl m per small 0 0 nodes;
          fair = assign_layers-IsFair fl m per small 0 0 nodes;
        },
        reached,
      )
    where
      per : ℕ
      per = (m.layer_count + length nodes - 1) / length nodes

      small : per + m.layer_count < 2 ^ 32
      small = share_small m.layer_count (length nodes) few_layers few_nodes

      reached : (assign_layers fl m per 0 0 nodes).1 ≡ m.layer_count
      reached =
          assign_layers-last fl m per small 0 0 nodes (omega arith)
            (share_covers m.layer_count (length nodes) some_node)

      all_layers :
          layers_of (assign_layers fl m per 0 0 nodes).0
          ≡ iota 0 (assign_layers fl m per 0 0 nodes).1
      all_layers = assign_layers-layers fl m per small 0 0 nodes (omega arith)

  -- The GPU nodes take every layer, so none is left for a CPU stage.
  no_rest :
      (nodes : Nodes F)
      → 0 < length nodes
      → length nodes ≤ exact_limit
      → ltb
          (assign_layers fl m (layers_per fl m.layer_count (length nodes)) 0 0 nodes).1
          m.layer_count
        ≡ false
  no_rest nodes h k = ground (arith, (dealt-IsPartition nodes h k).1)

  pub partition_pipeline-IsPartition :
      (nodes : Nodes F)
      → 0 < length nodes
      → length nodes ≤ exact_limit
      → IsPartition m.layer_count nodes (partition_pipeline fl m nodes)
  unfolding partition_pipeline
  partition_pipeline-IsPartition nodes h k = (dealt-IsPartition nodes h k).0

  -- Where integers up to 2^24 are exact as floats, on one to 2^24 nodes and for at most 2^24
  -- layers, the hybrid partition deals every layer, once and in order, to the nodes with a GPU in
  -- turn, or to all nodes where none has one: to each at least one and at most its share, rounded
  -- up.
  pub partition_hybrid-IsPartition :
      (nodes : Nodes F)
      → 0 < length nodes
      → length nodes ≤ exact_limit
      → IsPartition m.layer_count (hybrid_nodes nodes) (partition_hybrid fl m nodes)
  unfolding partition_hybrid hybrid_nodes
  partition_hybrid-IsPartition nodes h k =
      let gpu_nodes = retain (λ (n : NodeId × PhysicalNode F). has_gpu n.1) nodes in
      elim (Bool-cases (is_empty gpu_nodes)) [
        | inl no_gpu ↦ rw no_gpu (partition_pipeline-IsPartition nodes h k)
        | inr some_gpu ↦
            let few : length gpu_nodes ≤ exact_limit =
              omega
                (arith, length-retain-le (λ (n : NodeId × PhysicalNode F). has_gpu n.1) nodes) in
            let dealt = dealt-IsPartition gpu_nodes (length-pos gpu_nodes some_gpu) few in
            rw some_gpu
              (rw (no_rest gpu_nodes (length-pos gpu_nodes some_gpu) few) (rw append-nil dealt.0))
      ]
