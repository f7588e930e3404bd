-- ===== src/Directory/Queries.antt =====
-- services/tensor-directory/src/lib.rs: the queries by node.
use mathlib.Core.List.{Mem, mem-filter_map, mem-cons_self, mem-cons_of_mem}
use tensorgrid.Base.{
  ◌≡◌, ◌≢◌, ◌∙◌, sym, true, false, some, List, [], ◌∷◌, arith, contains, id_key, name_key,
  String-discrete, Option-cases, inl, inr, if_neg,
}
use tensorgrid.HashMap.{get}
use tensorgrid.Types.{NodeId, TensorId, DateTime}
use tensorgrid.Directory.View.{locate, indexed, placed, nodes_of}
use tensorgrid.Directory.Changes.{locate-register}
use tensorgrid.Directory.Index.{indexed-register}
use tensorgrid.Directory.Validity.{IsValid}
use tensorgrid.Directory.{
  TensorEntry, TensorDirectory, Registration, register_tensor, get_tensors_on_node,
}

mem_of_contains : (t : TensorId) (ts : List TensorId) → contains t ts ≡ true → Mem t ts
unfolding contains
mem_of_contains t [] h = cc
mem_of_contains t (u ∷ ts) h = elim (String-discrete u t) [
  | yes e ↦ rw e mem-cons_self
  | no e ↦
      mem-cons_of_mem u
        (mem_of_contains t ts (sym (if_neg (String-discrete u t) e true (contains t ts)) ∙ h))
]

-- On a directory that satisfies the invariant, the query of a node returns the entry of every
-- tensor that has a placement there.
pub tensors_on_node_complete :
    (t : TensorId) (n : NodeId) (d : TensorDirectory) (e : TensorEntry)
    → IsValid d
    → get t d.tensors ≡ some e
    → contains n (nodes_of e) ≡ true
    → Mem e (get_tensors_on_node n d)
unfolding get_tensors_on_node locate indexed contains
tensors_on_node_complete t n d e v h on = elim (Option-cases (get n d.node_tensors)) [
  | inl k ↦ absurd (ground (arith, v.covered t n, h))
  | inr (ts, k) ↦
      rw (k, get_tensors_on_node)
        ((mem-filter_map (λ u. get u d.tensors) ts).1
          ∣ (t, mem_of_contains t ts (ground (arith, v.covered t n, h)), h) ∣₁)
]

-- A tensor that is registered again on another node stays in the index of its old nodes, where it
-- has no placement any more: the index then lists it wrongly.
pub register_again_stale :
    (r : Registration) (created accessed : DateTime) (n : NodeId) (d : TensorDirectory)
    → IsValid d
    → placed d r.tensor_id n ≡ true
    → r.placement.node_id ≢ n
    → let again = register_tensor r created accessed d in
      (indexed again r.tensor_id n ≡ true) × (placed again r.tensor_id n ≡ false)
register_again_stale r created accessed n d v on moved = (
  ground (arith, indexed-register r.tensor_id n r created accessed d, v.covered r.tensor_id n),
  unfold contains in ground (arith, locate-register r.tensor_id r created accessed d),
)
