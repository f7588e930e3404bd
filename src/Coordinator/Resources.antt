-- ===== src/Coordinator/Resources.antt =====
-- services/coordinator/src/main.rs: `get_logical_cluster`.
use tensorgrid.Base.{ℕ, ◌≡◌, ◌∙◌, ◌<◌, ◌+◌, ◌^◌, ap, List, [], ◌∷◌, map, arith, id_key, sum, u64}
use tensorgrid.HashMap.{values}
use tensorgrid.Float.{Float}
use tensorgrid.Types.{PhysicalNode, GpuCapabilities}
use tensorgrid.Coordinator.{
  ClusterState, Totals, add_vram, add_node, add_nodes, no_node, get_logical_cluster,
}

unfoldable pub vram : List GpuCapabilities → ℕ
vram gpus = sum (map (λ g. g.vram_bytes) gpus)

abbrev pub ram_of : {F : Type 0} → ClusterState F → ℕ
ram_of s = sum (map (λ n. n.capabilities.memory.available_bytes) (values s.nodes))

abbrev pub vram_of : {F : Type 0} → ClusterState F → ℕ
vram_of s = sum (map (λ n. vram n.capabilities.gpus) (values s.nodes))

abbrev pub storage_of : {F : Type 0} → ClusterState F → ℕ
storage_of s = sum (map (λ n. n.capabilities.storage.available_bytes) (values s.nodes))

add_vram-vram :
    (total : ℕ) (gpus : List GpuCapabilities)
    → total + vram gpus < 2 ^ 64
    → add_vram total gpus ≡ total + vram gpus
unfolding add_vram vram sum
add_vram-vram total [] h = omega arith
add_vram-vram total (gpu ∷ gpus) h =
    grind (arith, add_vram-vram (u64 (total + gpu.vram_bytes)) gpus)

module _ {F D : Type 0} (fl : Float F) (dl : Float D) where
  add_nodes-sum :
      (t : Totals F) (nodes : List (PhysicalNode F))
      → t.host_memory_bytes + sum (map (λ n. n.capabilities.memory.available_bytes) nodes) < 2 ^ 64
      → t.device_memory_bytes + sum (map (λ n. vram n.capabilities.gpus) nodes) < 2 ^ 64
      → t.storage_bytes + sum (map (λ n. n.capabilities.storage.available_bytes) nodes) < 2 ^ 64
      → let t' = add_nodes fl dl t nodes in
        (t'.host_memory_bytes
          ≡ t.host_memory_bytes + sum (map (λ n. n.capabilities.memory.available_bytes) nodes))
        × (t'.device_memory_bytes
            ≡ t.device_memory_bytes + sum (map (λ n. vram n.capabilities.gpus) nodes))
        × (t'.storage_bytes
            ≡ t.storage_bytes + sum (map (λ n. n.capabilities.storage.available_bytes) nodes))
  unfolding add_nodes sum
  add_nodes-sum t [] h k l = (omega arith, omega arith, omega arith)
  add_nodes-sum t (n ∷ nodes) h k l =
      let here = add_vram-vram t.device_memory_bytes n.capabilities.gpus (omega arith) in
      let (a, b, c) =
        add_nodes-sum (add_node fl dl t n) nodes (omega arith) (omega (arith, here))
          (omega arith) in
      (omega arith, omega (arith, here), omega arith)

-- Where the sums over the nodes fit in a u64, the logical cluster offers 80 % of the nodes' available
-- memory and 85 % of their device memory, as f64 computes these, and all of their available storage.
pub get_logical_cluster-sum :
    {F D : Type 0} (fl : Float F) (dl : Float D) (s : ClusterState F)
    → ram_of s < 2 ^ 64
    → vram_of s < 2 ^ 64
    → storage_of s < 2 ^ 64
    → let r = (get_logical_cluster fl dl s).logical_resources in
      (r.host_memory_bytes ≡ dl.to_u64 (dl.mul (dl.of_ℕ (ram_of s)) (dl.lit 8 1)))
      × (r.device_memory_bytes ≡ dl.to_u64 (dl.mul (dl.of_ℕ (vram_of s)) (dl.lit 85 2)))
      × (r.storage_bytes ≡ storage_of s)
unfolding get_logical_cluster
get_logical_cluster-sum fl dl s h k l =
    let (a, b, c) =
      add_nodes-sum fl dl (no_node fl dl) (values s.nodes) (omega arith) (omega arith)
        (omega arith) in
    (
      ap (λ x. dl.to_u64 (dl.mul (dl.of_ℕ x) (dl.lit 8 1))) (a ∙ omega arith),
      ap (λ x. dl.to_u64 (dl.mul (dl.of_ℕ x) (dl.lit 85 2))) (b ∙ omega arith),
      c ∙ omega arith,
    )
