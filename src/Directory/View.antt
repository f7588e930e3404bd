-- ===== src/Directory/View.antt =====
-- services/tensor-directory/src/lib.rs: the two maps seen from outside, by tensor and by node.
use mathlib.Core.Option
use mathlib.Core.Option.{get_or}
use tensorgrid.Base.{
  ◌≡◌, refl, Bool, false, Option, none, some, List, [], ◌∷◌, map, arith, contains, retain_ne,
  id_key, name_key,
}
use tensorgrid.HashMap.{get}
use tensorgrid.Types.{NodeId, TensorId, PhysicalPlacement}
use tensorgrid.Directory.{TensorEntry, TensorDirectory, off_node}

abbrev pub nodes_of : TensorEntry → List NodeId
nodes_of e = map (λ p. p.node_id) e.placements

unfoldable pub locate : TensorDirectory → TensorId → Option (List NodeId)
locate d t = Option.map nodes_of (get t d.tensors)

abbrev pub member : NodeId → Option (List NodeId) → Bool
member n none = false
member n (some ns) = contains n ns

-- Tensor `t` has a placement on node `n`.
abbrev pub placed : TensorDirectory → TensorId → NodeId → Bool
placed d t n = member n (locate d t)

-- The index lists tensor `t` under node `n`.
unfoldable pub indexed : TensorDirectory → TensorId → NodeId → Bool
indexed d t n = contains t (get_or (get n d.node_tensors) [])

pub map-off_node :
    (n : NodeId) (ps : List PhysicalPlacement)
    → map (λ p. p.node_id) (off_node n ps) ≡ retain_ne n (map (λ p. p.node_id) ps)
unfolding off_node retain_ne
map-off_node n [] = refl
map-off_node n (p ∷ ps) = ground (arith, map-off_node n ps)
