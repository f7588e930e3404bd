-- ===== src/Directory/Index.antt =====
-- services/tensor-directory/src/lib.rs: lemmas on the index `node_tensors`, operation by operation.
use mathlib.Core.Option.{get_or}
use tensorgrid.Base.{
  ◌≡◌, ite, true, false, some, List, [], ◌∷◌, ◌++◌, arith, ℕ_discrete, String-discrete, contains,
  contains-snoc, contains-retain_ne, retain_ne, id_key, name_key, Option-cases, after, inl, inr,
}
use tensorgrid.HashMap.{HashMap, get}
use tensorgrid.HashMap.Laws.{get-remove, get-modify, get-upsert}
use tensorgrid.Types.{NodeId, TensorId, PhysicalPlacement, DateTime}
use tensorgrid.Directory.View.{indexed}
use tensorgrid.Directory.{
  Registration, TensorEntry, TensorDirectory, register_tensor, get_tensor, add_placement,
  remove_placement, index_tensor, unindex_tensor, store_listed, evict_from_node,
}

module _ (t : TensorId) where
  indexed_tensor :
      (n m : NodeId) (u : TensorId) (index : HashMap NodeId (List TensorId))
      → contains t (get_or (get m (index_tensor n u index)) [])
        ≡ ite
            (ℕ_discrete n m)
            (ite (String-discrete u t) true (contains t (get_or (get m index) [])))
            (contains t (get_or (get m index) []))
  unfolding index_tensor contains
  indexed_tensor n m u index = ground (
    arith,
    get-upsert n m [] (λ ts. ts ++ u ∷ []) index,
    contains-snoc t u (get_or (get m index) []),
  )

  contains-listed :
      (n m : NodeId) (old ts : List TensorId) (index : HashMap NodeId (List TensorId))
      → get n index ≡ some old
      → contains t (get_or (get m (store_listed n ts index)) [])
        ≡ ite (ℕ_discrete n m) (contains t ts) (contains t (get_or (get m index) []))
  unfolding store_listed contains
  contains-listed n m old [] index h = ground (arith, get-remove n m index)
  contains-listed n m old (u ∷ ts) index h =
      ground (arith, get-modify n m (λ (_ : List TensorId). u ∷ ts) index)

  indexed-unindex :
      (n m : NodeId) (u : TensorId) (index : HashMap NodeId (List TensorId))
      → contains t (get_or (get m (unindex_tensor n u index)) [])
        ≡ ite
            (ℕ_discrete n m)
            (ite (String-discrete u t) false (contains t (get_or (get m index) [])))
            (contains t (get_or (get m index) []))
  unfolding unindex_tensor contains
  indexed-unindex n m u index = elim (Option-cases (get n index)) [
    | inl e ↦ rw (e, unindex_tensor) (ground arith)
    | inr (ts, h) ↦
        rw (h, unindex_tensor)
          (ground
            (arith, contains-listed n m ts (retain_ne u ts) index h, contains-retain_ne t u ts))
  ]

  pub indexed-register :
      (m : NodeId) (r : Registration) (created accessed : DateTime) (d : TensorDirectory)
      → indexed (register_tensor r created accessed d) t m
        ≡ ite
            (ℕ_discrete r.placement.node_id m)
            (ite (String-discrete r.tensor_id t) true (indexed d t m))
            (indexed d t m)
  unfolding indexed register_tensor
  indexed-register m r created accessed d =
      indexed_tensor r.placement.node_id m r.tensor_id d.node_tensors

  pub indexed-access :
      (m : NodeId) (u : TensorId) (now : DateTime) (d : TensorDirectory)
      → indexed (get_tensor u now d).0 t m ≡ indexed d t m
  unfolding indexed get_tensor
  indexed-access m u now d = ground arith

  pub indexed-add :
      (m : NodeId) (u : TensorId) (p : PhysicalPlacement) (d : TensorDirectory) (e : TensorEntry)
      → get u d.tensors ≡ some e
      → indexed (after d (add_placement u p d)) t m
        ≡ ite
            (ℕ_discrete p.node_id m)
            (ite (String-discrete u t) true (indexed d t m))
            (indexed d t m)
  unfolding indexed add_placement
  indexed-add m u p d e h = rw (h, add_placement) (indexed_tensor p.node_id m u d.node_tensors)

  pub indexed-drop :
      (m : NodeId) (u : TensorId) (n : NodeId) (d : TensorDirectory) (e : TensorEntry)
      → get u d.tensors ≡ some e
      → indexed (after d (remove_placement u n d)) t m
        ≡ ite (ℕ_discrete n m) (ite (String-discrete u t) false (indexed d t m)) (indexed d t m)
  unfolding indexed remove_placement
  indexed-drop m u n d e h = rw (h, remove_placement) (indexed-unindex n m u d.node_tensors)

  pub indexed-evict :
      (m n : NodeId) (d : TensorDirectory)
      → indexed (evict_from_node n d).0 t m ≡ ite (ℕ_discrete n m) false (indexed d t m)
  unfolding indexed evict_from_node contains
  indexed-evict m n d = ground (arith, get-remove n m d.node_tensors)
