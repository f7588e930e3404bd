-- ===== src/Directory/Spec.antt =====
-- services/tensor-directory/src/lib.rs: a specification, each tensor's nodes with no index and no versions.
use mathlib.Core.Option
use tensorgrid.Base.{
  ite, Option, none, some, List, [], ◌∷◌, ◌++◌, if◌then◌else◌, String-discrete, retain_ne, id_key,
}
use tensorgrid.Types.{NodeId, TensorId}
use tensorgrid.Directory.View.{member}
use tensorgrid.Directory.{Op, register, access, add, drop, evict, transfer}

-- A tensor that the directory knows, with the nodes of its placements, oldest first.
abbrev pub Locations : Type 0
Locations = TensorId → Option (List NodeId)

abbrev pub known_if_placed : List NodeId → Option (List NodeId)
known_if_placed [] = none
known_if_placed (n ∷ ns) = some (n ∷ ns)

-- A tensor is forgotten with its last placement.
abbrev pub drop_node : NodeId → Option (List NodeId) → Option (List NodeId)
drop_node n none = none
drop_node n (some ns) = known_if_placed (retain_ne n ns)

abbrev pub add_node : NodeId → Option (List NodeId) → Option (List NodeId)
add_node n = Option.map (λ ns. ns ++ n ∷ [])

-- A transfer leaves the source's copy where it is.
abbrev pub copy_node : NodeId → NodeId → Option (List NodeId) → Option (List NodeId)
copy_node from to l = if member from l then add_node to l else l

unfoldable pub spec_step : Op → Locations → Locations
spec_step (register r _ _) l t =
    ite (String-discrete r.tensor_id t) (some (r.placement.node_id ∷ [])) (l t)
spec_step (access _ _) l t = l t
spec_step (add u p) l t = ite (String-discrete u t) (add_node p.node_id (l t)) (l t)
spec_step (drop u n) l t = ite (String-discrete u t) (drop_node n (l t)) (l t)
spec_step (evict n) l t = drop_node n (l t)
spec_step (transfer u from to _) l t = ite (String-discrete u t) (copy_node from to (l t)) (l t)
