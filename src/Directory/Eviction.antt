-- ===== src/Directory/Eviction.antt =====
-- services/tensor-directory/src/lib.rs: `evict_from_node`.
use tensorgrid.Base.{
  ◌≡◌, ◌++◌, Bool, true, false, Option, none, some, List, [], ◌∷◌, arith, ℕ_discrete, contains,
  id_key, name_key, if◌then◌else◌, not, ◌&&◌, ◌||◌, Option-cases, inl, inr, map, ite, retain_ne,
  contains-snoc,
}
use mathlib.Core.Option
use mathlib.Core.Option.{get_or}
use tensorgrid.HashMap.Laws.{get-remove}
use tensorgrid.HashMap.{HashMap, get}
use tensorgrid.Types.{NodeId, TensorId, PhysicalPlacement}
use tensorgrid.Directory.View.{locate, placed, indexed, nodes_of, map-off_node}
use tensorgrid.Directory.Spec.{drop_node, known_if_placed}
use tensorgrid.Directory.Changes.{
  get-store_kept, drop_node_twice, drop_node_absent, member-drop_node,
}
use tensorgrid.Directory.Validity.{IsValid, locate-evict}
use tensorgrid.Directory.{
  TensorEntry, TensorDirectory, evict_from_node, evict_loop, store_kept, off_node, was_last,
  get_tensors_on_node,
}

abbrev pub known : Option (List NodeId) → Bool
known none = false
known (some ns) = true

-- One turn of the loop lists tensor `u` if its last placement goes.
was_last-contains :
    (t u : TensorId) (ns : List NodeId) (ps : List PhysicalPlacement) (evicted : List TensorId)
    → map (λ p. p.node_id) ps ≡ ns
    → contains t (was_last u ps evicted)
      ≡ (if known (known_if_placed ns) then contains t evicted else contains t (evicted ++ u ∷ []))
was_last-contains t u ns [] evicted h = rw (← h)
was_last-contains t u ns (p ∷ ps) evicted h = rw (← h)

evict_loop-contains :
    (t : TensorId) (n : NodeId) (ts : List TensorId) (m : HashMap TensorId TensorEntry)
    (evicted : List TensorId)
    → let before = Option.map nodes_of (get t m) in
      contains t (evict_loop n ts m evicted).1 ≡ (
        contains t evicted || (contains t ts && (known before && not (known (drop_node n before)))))
unfolding evict_loop contains
evict_loop-contains t n [] m evicted = ground arith
evict_loop-contains t n (u ∷ ts) m evicted = elim (Option-cases (get u m)) [
  | inl e ↦ rw (e, evict_loop) (ground (arith, evict_loop-contains t n ts m evicted))
  | inr (e, h) ↦
      rw (h, evict_loop)
        (ground (
          arith,
          evict_loop-contains t n ts (store_kept u (off_node n e.placements) m)
              (was_last u (off_node n e.placements) evicted),
          was_last-contains t u (retain_ne n (nodes_of e)) (off_node n e.placements) evicted
              (map-off_node n e.placements),
          get-store_kept t u (off_node n e.placements) m e h,
          map-off_node n e.placements,
          contains-snoc t u evicted,
          drop_node_twice n (Option.map nodes_of (get t m)),
        ))
]

-- On a directory that satisfies the invariant, `evict_from_node` returns exactly the tensors that
-- were known and had no placement on another node.
pub evict-contains :
    (t : TensorId) (n : NodeId) (d : TensorDirectory)
    → IsValid d
    → contains t (evict_from_node n d).1
      ≡ (known (locate d t) && not (known (drop_node n (locate d t))))
unfolding evict_from_node locate indexed contains
evict-contains t n d v = ground (
  arith,
  evict_loop-contains t n (get_or (get n d.node_tensors) []) d.tensors [],
  v.covered t n,
  drop_node_absent n (locate d t),
  v.populated t,
)

-- After `evict_from_node` on a directory that satisfies the invariant, no tensor is placed on the
-- node and every other placement stays; a query of the node finds nothing.
pub evict_drains :
    (n m : NodeId) (t : TensorId) (d : TensorDirectory)
    → IsValid d
    → let after_evict = (evict_from_node n d).0 in
      (placed after_evict t m ≡ ite (ℕ_discrete n m) false (placed d t m))
      × (get_tensors_on_node n after_evict ≡ [])
unfolding get_tensors_on_node evict_from_node
evict_drains n m t d v = (
  rw (locate-evict n d t v) (member-drop_node n m (locate d t)),
  ground (arith, get-remove n n d.node_tensors),
)
